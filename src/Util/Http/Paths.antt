-- ===== src/Util/Http/Paths.antt =====
-- limitPathDepth of internal/edgecenter/http_instrumentation.go by its segments.
use edgecenter_ccm.Prelude.{
  ℕ, zero, suc, Str, Bool, true, false, List, [], ◌∷◌, ◌++◌, take, filter, codes, split, any, ◌==◌,
  nat_eq, str_eq, if◌then◌else◌, pos, All, Bool-cases, inl, inr, ◌≡◌, refl, ap, ◌∙◌, arith,
}
use edgecenter_ccm.Util.Http.{limit_path_depth, take_parts, join, rooted}

abbrev is_segment : Str → Bool
is_segment [] = false
is_segment (c ∷ part) = true

-- The parts of a path that are not empty
abbrev pub segments : Str → List Str
segments path = filter is_segment (split b'/' path)

abbrev Plain : Str → Type 0
Plain part = any (λ c. c == b'/') part ≡ false

take_parts-eq : (n : ℕ) (parts : List Str) → take_parts n parts ≡ take n (filter is_segment parts)
unfolding take_parts
take_parts-eq zero parts = refl
take_parts-eq (suc n) [] = refl
take_parts-eq (suc n) ([] ∷ parts) = take_parts-eq (suc n) parts
take_parts-eq (suc n) ((c ∷ part) ∷ parts) =
    ap (λ (p : List Str). (c ∷ part) ∷ p) (take_parts-eq n parts)

split_without_slash : (part : Str) → Plain part → split b'/' part ≡ part ∷ []
unfolding split
split_without_slash [] h = refl
split_without_slash (c ∷ part) h = elim (Bool-cases (c == b'/')) [
  | inl e ↦ ground arith
  | inr e ↦ rw (split_without_slash part (ground arith), e) refl
]

split_joined :
    (part rest first : Str) (parts : List Str)
    → Plain part
    → split b'/' rest ≡ first ∷ parts
    → split b'/' (part ++ (b'/' ∷ rest)) ≡ part ∷ first ∷ parts
unfolding split
split_joined [] rest first parts h q = rw q (ground arith)
split_joined (c ∷ part) rest first parts h q = elim (Bool-cases (c == b'/')) [
  | inl e ↦ ground arith
  | inr e ↦ rw (split_joined part rest first parts (ground arith) q, e) refl
]

-- A part of a path that is not empty and has no slash
abbrev IsSegment : Str → Type 0
IsSegment part = (is_segment part ≡ true) × Plain part

split-Plain : (path : Str) → All Plain (split b'/' path)
unfolding split
split-Plain [] = (refl, tt)
split-Plain (c ∷ path) = by_parts (split b'/' path) (split-Plain path)
  where
    by_parts :
        (parts : List Str)
        → All Plain parts
        → All Plain (elim parts as (λ p. List Str) [
          | [] ↦ []
          | part ∷ rest ↦ if c == b'/' then [] ∷ part ∷ rest else (c ∷ part) ∷ rest
        ])
    by_parts [] all = tt
    by_parts (part ∷ rest) (plain, all) = elim (Bool-cases (c == b'/')) [
      | inl e ↦ rw e (refl, (plain, all))
      | inr e ↦ rw e (ground arith, all)
    ]

filter-IsSegment : (parts : List Str) → All Plain parts → All IsSegment (filter is_segment parts)
filter-IsSegment [] all = tt
filter-IsSegment ([] ∷ parts) (plain, all) = filter-IsSegment parts all
filter-IsSegment ((c ∷ part) ∷ parts) (plain, all) = ((refl, plain), filter-IsSegment parts all)

take-All : (P : Str → Type 0) (n : ℕ) (parts : List Str) → All P parts → All P (take n parts)
take-All P zero parts all = tt
take-All P (suc n) [] all = tt
take-All P (suc n) (part ∷ parts) (p, all) = (p, take-All P n parts all)

split-join :
    (part : Str) (parts : List Str)
    → All IsSegment (part ∷ parts)
    → split b'/' (join (part ∷ parts)) ≡ part ∷ parts
unfolding join
split-join part [] ((_, plain), all) = split_without_slash part plain
split-join part (next ∷ parts) ((_, plain), all) =
    split_joined part (join (next ∷ parts)) next parts plain (split-join next parts all)

filter_segments : (parts : List Str) → All IsSegment parts → filter is_segment parts ≡ parts
filter_segments [] all = refl
filter_segments ([] ∷ parts) ((some_part, _), all) = ground arith
filter_segments ((c ∷ part) ∷ parts) (_, all) =
    ap (λ (p : List Str). (c ∷ part) ∷ p) (filter_segments parts all)

segments-rooted : (parts : List Str) → All IsSegment parts → segments (rooted parts) ≡ parts
unfolding split codes
segments-rooted [] all = ground arith
segments-rooted (part ∷ parts) all =
    ap (filter is_segment)
      (split_joined [] (join (part ∷ parts)) part parts refl (split-join part parts all))
    ∙ filter_segments (part ∷ parts) all

-- With at least one segment allowed, the path that limitPathDepth returns has the first segments of
-- the path, as many as are allowed.
pub segments-limit_path_depth :
    (path : Str) (n : ℕ)
    → segments (limit_path_depth path (pos (suc n))) ≡ take (suc n) (segments path)
unfolding limit_path_depth
segments-limit_path_depth path n =
    ap (λ (p : List Str). segments (rooted p)) (take_parts-eq (suc n) (split b'/' path))
    ∙ segments-rooted (take (suc n) (segments path)) (
        take-All IsSegment (suc n) (segments path)
          (filter-IsSegment (split b'/' path) (split-Plain path)))
