-- ===== src/Prelude/Monad.antt =====
-- Calls that return a value or an error, or panic, over a state that they change.
use Prim.Native.String.{String}
use mathlib.Core.Path.{◌≡◌, refl, ap}
use mathlib.Core.Bool.{Bool, true, false}
use mathlib.Core.Logic.{◌⊎◌, inl, inr}
use mathlib.Core.Option.{Option, none, some}
use mathlib.Core.List.{◌++◌}
use native.Mathlib.Omega.{arith}
use package.edgecenter_ccm.Prelude.Text.{Str, codes}

-- The error values that the code compares with `errors.Is`.
pub data Sentinel : Type 0 where
  not_found multiple_results no_address_found : Sentinel
  instance_not_found not_implemented : Sentinel
  wait_timeout floating_ips_not_found : Sentinel
  bad_metadata no_router_id deadline_exceeded : Sentinel

-- An error is its text and what it wraps. A format keeps its constant text; the operands that are
-- no errors are left out of the text.
pub data Err : Type 0 where
  sentinel : Sentinel → Err
  -- errors.New, and fmt.Errorf with no error among its operands
  failure : String → Err
  -- an error of the API, by its text
  api : Str → Err
  -- fmt.Errorf with `%w`
  wrap : String → Err → Err
  -- fmt.Errorf with `%v` of an error: the text is kept, and errors.Is does not see it
  quote : String → Err → Err
  -- DanglingAttachError of internal/volume/util/error.go: its text, the node and the device path
  dangling : String → Str → Str → Err
  -- deletedVolumeInUseError of internal/volume/volume.go
  volume_in_use : String → Err

pub data Outcome {ℓ} (A : Type ℓ) : Type ℓ where
  ok : A → Outcome A
  err : Err → Outcome A
  -- a run-time panic: a nil pointer or an index out of range
  panic : Outcome A

abbrev pub Exec : Type 0 → Type 0 → Type 0
Exec S A = S → Outcome A × S

module _ {S A : Type 0} where
  abbrev pub pure : A → Exec S A
  pure a s = (ok a, s)

  abbrev pub lift : Outcome A → Exec S A
  lift r s = (r, s)

  abbrev pub fail : Err → Exec S A
  fail e s = (err e, s)

  abbrev pub abort : Exec S A
  abort s = (panic, s)

  -- A nil pointer that is followed, or the first element of an empty slice.
  abbrev pub deref : Option A → Exec S A
  deref none = abort
  deref (some a) = pure a

module _ {A : Type 0} where
  -- The error is a value that the code looks at; a panic goes on.
  abbrev pub caught : Outcome A → Outcome (Err ⊎ A)
  caught (ok a) = ok (inr a)
  caught (err e) = ok (inl e)
  caught panic = panic

  abbrev pub mapped : (Err → Err) → Outcome A → Outcome A
  mapped f (ok a) = ok a
  mapped f (err e) = err (f e)
  mapped f panic = panic

module _ {S A : Type 0} where
  abbrev pub attempt : Exec S A → Exec S (Err ⊎ A)
  attempt m s = let (r, t) = m s in (caught r, t)

  -- `return fmt.Errorf(text + "%w", err)`, and the same with `%v`
  abbrev pub wrapping : String → Exec S A → Exec S A
  wrapping text m s = let (r, t) = m s in (mapped (wrap text) r, t)

  abbrev pub quoting : String → Exec S A → Exec S A
  quoting text m s = let (r, t) = m s in (mapped (quote text) r, t)

-- A deferred call: it runs after the first whatever the outcome is, and its own outcome is dropped.
module _ {S A : Type 0} where
  abbrev pub deferring : Exec S (Unit {0}) → Exec S A → Exec S A
  deferring cleanup m s = let (r, t) = m s in (r, (cleanup t).1)

-- A call made by a closure that captures variables `V`, and the closure's loop from their values.
module _ {V S A : Type 0} where
  abbrev pub world : Exec S A → Exec (V × S) A
  world m x = let (r, t) = m x.1 in (r, (x.0, t))

  abbrev pub from_captured : V → Exec (V × S) A → Exec S A
  from_captured v m s = let (r, x) = m (v, s) in (r, x.1)

module _ {V S : Type 0} where
  abbrev pub assign : V → Exec (V × S) (Unit {0})
  assign v x = (ok tt, (v, x.1))

module _ {S A B : Type 0} where
  abbrev pub continue : Outcome A → (A → Exec S B) → Exec S B
  continue (ok a) f s = f a s
  continue (err e) f s = (err e, s)
  continue panic f s = (panic, s)

  infixl 5 ◌>>=◌ ◌>>◌
  abbrev pub ◌>>=◌ : Exec S A → (A → Exec S B) → Exec S B
  ◌>>=◌ m f s = let (r, t) = m s in continue r f t

  abbrev pub ◌>>◌ : Exec S A → Exec S B → Exec S B
  m >> n = m >>= λ _. n

abbrev pub same_sentinel : Sentinel → Sentinel → Bool
same_sentinel not_found not_found = true
same_sentinel multiple_results multiple_results = true
same_sentinel no_address_found no_address_found = true
same_sentinel instance_not_found instance_not_found = true
same_sentinel not_implemented not_implemented = true
same_sentinel wait_timeout wait_timeout = true
same_sentinel floating_ips_not_found floating_ips_not_found = true
same_sentinel bad_metadata bad_metadata = true
same_sentinel no_router_id no_router_id = true
same_sentinel deadline_exceeded deadline_exceeded = true
same_sentinel _ _ = false

-- errors.Is
abbrev pub error_is : Err → Sentinel → Bool
error_is (sentinel k) j = same_sentinel k j
error_is (failure _) j = false
error_is (api _) j = false
error_is (wrap _ e) j = error_is e j
error_is (quote _ _) j = false
error_is (dangling _ _ _) j = false
error_is (volume_in_use _) j = false

-- err.Error(). The texts of the errors that are declared outside the repository are an argument.
unfoldable pub message : (Sentinel → Str) → Err → Str
unfolding codes
message foreign_text (sentinel not_found) = codes "failed to find object"
message foreign_text (sentinel multiple_results) = codes "multiple results where only one expected"
message foreign_text (sentinel no_address_found) = codes "no address found for host"
message foreign_text (sentinel bad_metadata) = codes "invalid OpenStack metadata, got empty uuid"
message foreign_text (sentinel no_router_id) = codes "router-id not set in cloud provider config"
message foreign_text (sentinel k) = foreign_text k
message foreign_text (failure text) = codes text
message foreign_text (api text) = text
message foreign_text (wrap text e) = codes text ++ message foreign_text e
message foreign_text (dangling text node path) = codes text
message foreign_text (volume_in_use text) = codes text
message foreign_text (quote text e) = codes text ++ message foreign_text e

module _ {S A B : Type 0} where
  -- Inversion of a call that returned no error.
  pub >>=-eq-ok :
      (m : Exec S A) (f : A → Exec S B) (s : S) {b : B} {u : S}
      → (m >>= f) s ≡ (ok b, u)
      → (a : A) × (t : S) × (m s ≡ (ok a, t)) × (f a t ≡ (ok b, u))
  >>=-eq-ok m f s h = split (m s) refl h
    where
      split :
          (r : Outcome A × S) {b : B} {u : S}
          → m s ≡ r
          → continue r.0 f r.1 ≡ (ok b, u)
          → (a : A) × (t : S) × (m s ≡ (ok a, t)) × (f a t ≡ (ok b, u))
      split (ok a, t) e h = (a, t, e, h)
      split (err x, t) e h = absurd (cc (ap (λ (p : Outcome B × S). p.0) h))
      split (panic, t) e h = absurd (cc (ap (λ (p : Outcome B × S). p.0) h))

pub ok_injective : {A : Type 0} {a b : A} → ◌≡◌ {A = Outcome A} (ok a) (ok b) → a ≡ b
ok_injective h = cc

module _ {S A : Type 0} where
  pub pure-eq-ok : {a b : A} {s t : S} → ◌≡◌ {A = Outcome A × S} (ok a, s) (ok b, t) → a ≡ b
  pure-eq-ok h = cc (ap (λ (x : Outcome A × S). x.0) h)

  pub wrapping-eq-ok :
      (text : String) (m : Exec S A) (s : S) {a : A} {t : S}
      → wrapping text m s ≡ (ok a, t)
      → m s ≡ (ok a, t)
  wrapping-eq-ok text m s h = inner (m s) h
    where
      inner :
          (x : Outcome A × S) {a : A} {t : S}
          → ◌≡◌ {A = Outcome A × S} (mapped (wrap text) x.0, x.1) (ok a, t)
          → x ≡ (ok a, t)
      inner (ok a, t) h = h
      inner (err e, t) h = ground arith
      inner (panic, t) h = ground arith

  pub quoting-eq-ok :
      (text : String) (m : Exec S A) (s : S) {a : A} {t : S}
      → quoting text m s ≡ (ok a, t)
      → m s ≡ (ok a, t)
  quoting-eq-ok text m s h = inner (m s) h
    where
      inner :
          (x : Outcome A × S) {a : A} {t : S}
          → ◌≡◌ {A = Outcome A × S} (mapped (quote text) x.0, x.1) (ok a, t)
          → x ≡ (ok a, t)
      inner (ok a, t) h = h
      inner (err e, t) h = ground arith
      inner (panic, t) h = ground arith

module _ {V S A B : Type 0} where
  -- A closure that looks at the outcome of a call goes on with it, unless the call panicked.
  pub attempt-world-eq-ok :
      (m : Exec S A) (f : Err ⊎ A → Exec (V × S) B) (v : V) (s : S) {b : B} {u : V × S}
      → (attempt (world m) >>= f) (v, s) ≡ (ok b, u)
      → (x : Err ⊎ A) × (t : S) × (attempt m s ≡ (ok x, t)) × (f x (v, t) ≡ (ok b, u))
  attempt-world-eq-ok m f v s h = inner (m s) h
    where
      inner :
          (y : Outcome A × S) {b : B} {u : V × S}
          → continue (caught y.0) f (v, y.1) ≡ (ok b, u)
          → (x : Err ⊎ A) × (t : S) × (◌≡◌ {A = Outcome (Err ⊎ A) × S} (caught y.0, y.1) (ok x, t))
            × (f x (v, t) ≡ (ok b, u))
      inner (ok a, t) h = (inr a, t, refl, h)
      inner (err e, t) h = (inl e, t, refl, h)
      inner (panic, t) h = ground arith

module _ {V S A : Type 0} where
  -- A call of the closure that returned no error, without the captured variables.
  pub world-eq-ok :
      (m : Exec S A) (x y : V × S) {a : A} → world m x ≡ (ok a, y) → m x.1 ≡ (ok a, y.1)
  world-eq-ok m x y h = ap (λ (z : Outcome A × (V × S)). (z.0, z.1.1)) h
