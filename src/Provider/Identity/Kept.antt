-- ===== src/Provider/Identity/Kept.antt =====
-- The ID that InstanceID of internal/edgecenter/instances.go returns and keeps.
use edgecenter_ccm.Prelude.{
  Str, Option, none, some, Bool, true, false, not, ◌&&◌, [], ◌∷◌, ◌⊎◌, inl, inr, codes, ◌==◌,
  str_eq, if◌then◌else◌, trim_space, Err, Outcome, ok, err, panic, caught, world, world-Keeps,
  ◌>>=◌, >>=-eq-ok, pure-eq-ok, ok_injective, ◌≡◌, ◌≢◌, refl, ap, sym, ◌∙◌, subst, arith,
}
use edgecenter_ccm.Cloud.Host.{Host, Metadata}
use edgecenter_ccm.Metadata.Search.{get}
use edgecenter_ccm.Provider.Identity.{
  instance_id_file, id_of_file, read_id_file, or_file, read_instance_id, local_instance_id,
}

-- The ID that a text of the file gives: the trimmed text, or the empty ID where that is empty or says
-- that there is no data source.
abbrev pub NamedBy : Str → Str → Type 0
NamedBy text id =
    ((id ≡ trim_space text) × (id ≢ codes "iid-datasource-none"))
    ⊎ ((id ≡ []) × (trim_space text ≡ codes "iid-datasource-none"))

same_of_test : (x y : Str) → (x == y) ≡ true → x ≡ y
same_of_test x y h = ground arith

differs_of_test : (x y : Str) → (x == y) ≡ false → x ≢ y
differs_of_test x y h e = ground arith

id_of_file-NamedBy : (text id : Str) → id_of_file (inr text) ≡ ok id → NamedBy text id
unfolding id_of_file
id_of_file-NamedBy text id h =
    by_test (trim_space text == []) (trim_space text == codes "iid-datasource-none") refl refl h
  where
    by_test :
        (b c : Bool)
        → (trim_space text == []) ≡ b
        → (trim_space text == codes "iid-datasource-none") ≡ c
        → (if not b && not c then ok (trim_space text) else ok []) ≡ ok id
        → NamedBy text id
    by_test true true p q h = inr (sym (ok_injective h), ground arith)
    by_test true false p q h =
        let empty : trim_space text ≡ [] = same_of_test (trim_space text) [] p in
        let e = ok_injective h in
        inl (sym e ∙ sym empty, λ d. differs_of_test _ _ q (empty ∙ e ∙ d))
    by_test false true p q h = inr (sym (ok_injective h), ground arith)
    by_test false false p q h =
        let same = ok_injective h in inl (sym same, λ e. ground (arith, same, e, q))

failed : {id : Str} (e : Err) → ¬ (id_of_file (inl e) ≡ ok id)
unfolding id_of_file
failed e h = ground arith

module _ {State : Type 0} (host : Host State) where
  -- The ID, and the state after it, that the host gives in a state: the ID of the metadata; or, where
  -- these give an error, what the file that cloud-init left names.
  abbrev pub IdOf : Str → Option Metadata × State → Option Metadata × State → Str → Type 0
  IdOf order x y id =
      ((md : Metadata) × (get host order x ≡ (ok (some md), y)) × (id ≡ md.uuid))
      ⊎ ((e : Err) × (w : Option Metadata × State) × (text : Str) × (get host order x ≡ (err e, w))
          × (host.read_file instance_id_file w.1 ≡ (ok text, y.1))
          × (y.0 ≡ w.0)
          × NamedBy text id)

  read_id_file-NamedBy :
      (s t : State) (id : Str)
      → read_id_file host s ≡ (ok id, t)
      → (text : Str) × (host.read_file instance_id_file s ≡ (ok text, t)) × NamedBy text id
  unfolding read_id_file
  read_id_file-NamedBy s t id h = by_read (host.read_file instance_id_file s) refl h
    where
      by_read :
          (x : Outcome Str × State)
          → host.read_file instance_id_file s ≡ x
          → (do got ← λ y. (caught x.0, x.1); λ y. (id_of_file got, y)) s ≡ (ok id, t)
          → (text : Str) × (host.read_file instance_id_file s ≡ (ok text, t)) × NamedBy text id
      by_read (ok text, u) q h = (
        text,
        q ∙ ap (λ (z : Outcome Str × State). (ok text, z.1)) h,
        id_of_file-NamedBy text id (ap (λ (z : Outcome Str × State). z.0) h),
      )
      by_read (err e, u) q h = absurd (failed e (ap (λ (z : Outcome Str × State). z.0) h))
      by_read (panic, u) q h = ground arith

  read_instance_id-IdOf :
      (order : Str) (x y : Option Metadata × State) (id : Str)
      → read_instance_id host order x ≡ (ok id, y)
      → IdOf order x y id
  unfolding read_instance_id
  read_instance_id-IdOf order x y id h = by_metadata (get host order x) refl h
    where
      by_metadata :
          (z : Outcome (Option Metadata) × (Option Metadata × State))
          → get host order x ≡ z
          → (do md ← λ w. (caught z.0, z.1); or_file host md) x ≡ (ok id, y)
          → IdOf order x y id
      by_metadata (ok none, w) q h = ground arith
      by_metadata (ok (some md), w) q h = inl (
        md,
        q ∙ ap (λ (z : Outcome Str × (Option Metadata × State)). (ok (some md), z.1)) h,
        ground arith,
      )
      by_metadata (err e, w) q h =
          let (kept, ran) = world-Keeps (read_id_file host) w y h in
          let (text, read, named) = read_id_file-NamedBy w.1 y.1 id ran in
          inr (e, w, text, q, read, sym kept, named)
      by_metadata (panic, w) q h = ground arith

  -- Where no ID is kept yet, InstanceID returns the ID of the metadata that it reads there; or, where
  -- their reading gives an error, the trimmed text of the file of cloud-init, and an empty ID where
  -- that text says that there is no data source. It keeps what it returned: unless that is empty,
  -- every later call returns it and leaves the state as it is.
  pub local_instance_id-Kept :
      (order : Str) (id kept : Str) (x y : Option Metadata × State)
      → local_instance_id host order ([], x) ≡ (ok id, (kept, y))
      → (kept ≡ id)
        × IdOf order x y id
        × ((id ≡ [])
            ⊎ ((again : Str) → local_instance_id host again (kept, y) ≡ (ok id, (kept, y))))
  unfolding local_instance_id
  local_instance_id-Kept order id kept x y h =
      let (read, (old, w), e, h1) = >>=-eq-ok (world (read_instance_id host order)) _ ([], x) h in
      let same : read ≡ id = pure-eq-ok h1 in
      let ended : w ≡ y = ap (λ (z : Outcome Str × (Str × (Option Metadata × State))). z.1.1) h1 in
      let stored : read ≡ kept =
        ap (λ (z : Outcome Str × (Str × (Option Metadata × State))). z.1.0) h1 in
      (
        sym stored ∙ same,
        subst (λ (z : Str × (Option Metadata × State)). IdOf order x z.1 z.0)
            (λ i. (same i, ended i))
            (read_instance_id-IdOf order x w read
              (world-Keeps (read_instance_id host order) ([], x) (old, w) e).1),
        later kept id (sym stored ∙ same),
      )
    where
      later :
          (kept id : Str)
          → kept ≡ id
          → (id ≡ [])
            ⊎ ((again : Str) → local_instance_id host again (kept, y) ≡ (ok id, (kept, y)))
      later [] id e = inl (sym e)
      later (c ∷ kept) id e = inr (λ again. ap (λ (i : Str). (ok i, ((c ∷ kept), y))) e)
