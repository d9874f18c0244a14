-- ===== src/Workspace/Files.antt =====
-- What is read from an in-memory workspace after a write or a deletion.
use dev_team.Prelude.{
  ◌≡◌, refl, sym, ap, ◌∙◌, ◌↔◌, ◌⊎◌, inl, inr, String, Bool, true, false, not, ◌&&◌, none, some,
  List, [], ◌∷◌, ◌==◌, if◌then◌else◌, arith, filter, elem, is_empty, eq_iff, Bool-cases, All,
  All-filter,
}
use dev_team.Prelude.Split.{split, join, starts_with_slash, is_segment, split-All, split-join}
use dev_team.Workspace.Paths.{is_kept}
use dev_team.Prelude.Dict.{set, remove, get-set, has-set, get-remove, has-remove}
use dev_team.Workspace.{
  Normalised, normalised, bad_path, collect_parts, with_part, is_skipped, joined, normalise,
  InMemoryWorkspace, ok, no_such_file, absolute_path, escaping_path, empty_path, Result, with_key,
  found, read_text, write_text, exists, delete,
}

-- A write under one key is read through the paths with that key, and through no other.
read_text-write_key :
    (path other key key' content : String) (w : InMemoryWorkspace)
    → normalise path ≡ normalised key
    → normalise other ≡ normalised key'
    → (w' : InMemoryWorkspace) × (write_text path content w ≡ ok w')
      × (read_text other w' ≡ (if key == key' then ok content else read_text other w))
      × (exists other w' ≡ (if key == key' then ok true else exists other w))
unfolding read_text write_text exists with_key found
read_text-write_key path other key key' content w e f = (
  record { files = set w.files key content },
  rw e refl,
  rw f (ground (arith, get-set w.files key key' content)),
  rw f (ground (arith, has-set w.files key key' content)),
)

-- A file that was deleted through one path is gone through every path of the same key, and all
-- others are as they were.
pub read_text-delete :
    (path other key key' : String) (w : InMemoryWorkspace)
    → normalise path ≡ normalised key
    → normalise other ≡ normalised key'
    → (w' : InMemoryWorkspace) × (delete path w ≡ ok w')
      × (read_text other w' ≡ (if key == key' then no_such_file else read_text other w))
      × (exists other w' ≡ (if key == key' then ok false else exists other w))
unfolding read_text delete exists with_key found
read_text-delete path other key key' w e f = (
  record { files = remove w.files key },
  rw e refl,
  rw f (ground (arith, get-remove w.files key key')),
  rw f (ground (arith, has-remove w.files key key')),
)

-- The parts of a path that count: those between its separators that are neither empty nor a dot.
abbrev pub kept_parts : String → List String
kept_parts path = filter is_kept (split path)

-- A path that may be used: it does not begin with a slash, no part of it is two dots, and some part
-- counts.
unfoldable pub is_usable : String → Bool
unfolding filter
is_usable path =
    not (starts_with_slash path)
    && (not (elem ".." (kept_parts path)) && not (is_empty (kept_parts path)))

unfoldable pub same_texts : List String → List String → Bool
same_texts [] [] = true
same_texts [] (y ∷ ys) = false
same_texts (x ∷ xs) [] = false
same_texts (x ∷ xs) (y ∷ ys) = x == y && same_texts xs ys

same_texts_iff : (xs ys : List String) → (same_texts xs ys ≡ true) ↔ (xs ≡ ys)
unfolding same_texts
same_texts_iff [] [] = ((λ e. refl), λ e. refl)
same_texts_iff [] (y ∷ ys) = ((λ e. absurd (cc (e))), λ e. absurd (cc (e)))
same_texts_iff (x ∷ xs) [] = ((λ e. absurd (cc (e))), λ e. absurd (cc (e)))
same_texts_iff (x ∷ xs) (y ∷ ys) =
    let given = same_texts_iff xs ys in
    (
      λ e.
          ap (◌∷◌ x) (given.0 (ground (arith, e)))
          ∙ ap (λ z. z ∷ ys) ((eq_iff x y).0 (ground (arith, e))),
      λ e. let heads = (eq_iff x y).1 (cc (e)) in rw heads (given.1 (cc (e))),
    )

collect_parts_lem :
    (given : List String)
    → collect_parts given
      ≡ (if elem ".." (filter is_kept given) then none else some (filter is_kept given))
unfolding collect_parts filter elem with_part
collect_parts_lem [] = refl
collect_parts_lem (p ∷ given) = elim (Bool-cases (is_skipped p)) [
  | inl skipped ↦ rw skipped (collect_parts_lem given)
  | inr kept ↦ elim (Bool-cases (p == "..")) [
    | inl up ↦ rw (kept, up) (ground (arith, kept, up))
    | inr other ↦ elim (Bool-cases (elem ".." (filter is_kept given))) [
      | inl inside ↦ ground (arith, kept, other, inside, collect_parts_lem given)
      | inr outside ↦ ground (arith, kept, other, outside, collect_parts_lem given)
    ]
  ]
]

joined-some : (ps : List String) → is_empty ps ≡ false → joined (some ps) ≡ normalised (join ps)
unfolding joined
joined-some [] e = cc
joined-some (p ∷ ps) e = refl

normalise-is_usable :
    (path : String) → is_usable path ≡ true → normalise path ≡ normalised (join (kept_parts path))
unfolding normalise is_usable
normalise-is_usable path e =
    ground (arith, e, collect_parts_lem (split path), joined-some (kept_parts path))

joined-empty : (ps : List String) → is_empty ps ≡ true → joined (some ps) ≡ empty_path
unfolding joined
joined-empty [] e = refl
joined-empty (p ∷ ps) e = cc

-- Why a path may not be used: it begins with a slash, else it has a part of two dots, else no part
-- counts.
abbrev pub refusal : String → Normalised
refusal path =
    if starts_with_slash path
    then absolute_path
    else if elem ".." (kept_parts path)
    then escaping_path
    else empty_path

normalise-unusable : (path : String) → is_usable path ≡ false → normalise path ≡ refusal path
unfolding normalise is_usable joined
normalise-unusable path e =
    ground (arith, e, collect_parts_lem (split path), joined-empty (kept_parts path))

with_key-refusal :
    {A : Type 0} (path : String) (f : String → Result A)
    → with_key (refusal path) f ≡ bad_path (refusal path)
unfolding with_key
with_key-refusal path f = elim (Bool-cases (starts_with_slash path)) [
  | inl slash ↦ rw slash refl
  | inr relative ↦ elim (Bool-cases (elem ".." (kept_parts path))) [
    | inl up ↦ rw (relative, up) refl
    | inr inside ↦ rw (relative, inside) refl
  ]
]

split-join_kept :
    (ps : List String)
    → All (λ p. is_segment p ≡ true) ps
    → is_empty ps ≡ false
    → split (join ps) ≡ ps
split-join_kept [] a e = cc
split-join_kept (p ∷ ps) a e = split-join p ps a

split-join-kept_parts :
    (path : String) → is_usable path ≡ true → split (join (kept_parts path)) ≡ kept_parts path
unfolding is_usable
split-join-kept_parts path u =
    split-join_kept (kept_parts path)
      (All-filter (λ p. is_segment p ≡ true) is_kept (split path) (split-All path))
      (ground (arith, u))

bool_same : {a b : Bool} → (a ≡ true → b ≡ true) → (b ≡ true → a ≡ true) → a ≡ b
bool_same {a = true} f g = sym (f refl)
bool_same {a = false} {b = true} f g = g refl
bool_same {a = false} {b = false} f g = refl

same_keys :
    (path other : String)
    → is_usable path ≡ true
    → is_usable other ≡ true
    → (join (kept_parts path) == join (kept_parts other))
      ≡ same_texts (kept_parts path) (kept_parts other)
same_keys path other u v =
    let ps = kept_parts path in
    let qs = kept_parts other in
    let splits = split-join-kept_parts path u in
    let splits' = split-join-kept_parts other v in
    bool_same
      (λ e.
        (same_texts_iff ps qs).1
          (sym splits ∙ ap split ((eq_iff (join ps) (join qs)).0 e) ∙ splits'))
      (λ e. (eq_iff (join ps) (join qs)).1 (ap join ((same_texts_iff ps qs).0 e)))

-- Through a path that may not be used, nothing is read, from any workspace.
unread :
    (other : String) (w w' : InMemoryWorkspace)
    → is_usable other ≡ false
    → (read_text other w' ≡ read_text other w) × (exists other w' ≡ exists other w)
unfolding read_text exists
unread other w w' u =
    let bad = normalise-unusable other u in
    (
      rw bad (with_key-refusal other _ ∙ sym (with_key-refusal other _)),
      rw bad (with_key-refusal other _ ∙ sym (with_key-refusal other _)),
    )

refused_write :
    (path content : String) (w : InMemoryWorkspace)
    → is_usable path ≡ false
    → write_text path content w ≡ bad_path (refusal path)
unfolding write_text
refused_write path content w u = rw (normalise-unusable path u) (with_key-refusal path _)

-- A write through a path that may be used succeeds, and what it wrote is then read through exactly
-- the paths that may be used and have the same parts that count; every other path reads as before.
-- Through a path that may not be used nothing is written, and the error tells why.
pub read_text-write_text :
    (path other content : String) (w : InMemoryWorkspace)
    → ((is_usable path ≡ true)
        × ((w' : InMemoryWorkspace) × (write_text path content w ≡ ok w')
            × (read_text other w' ≡ (
                if is_usable other && same_texts (kept_parts path) (kept_parts other)
                then ok content
                else read_text other w))
            × (exists other w' ≡ (
                if is_usable other && same_texts (kept_parts path) (kept_parts other)
                then ok true
                else exists other w))))
      ⊎ ((is_usable path ≡ false) × (write_text path content w ≡ bad_path (refusal path)))
read_text-write_text path other content w = elim (Bool-cases (is_usable path)) [
  | inl usable ↦ inl (
    usable,
    elim (Bool-cases (is_usable other)) [
      | inl readable ↦
          let (w', written, text, there) =
            read_text-write_key path other (join (kept_parts path)) (join (kept_parts other))
              content w (normalise-is_usable path usable) (normalise-is_usable other readable) in
          let same = same_keys path other usable readable in
          (w', written, rw readable (rw same at text), rw readable (rw same at there))
      | inr unreadable ↦
          let (w', written, text, there) =
            read_text-write_key path path (join (kept_parts path)) (join (kept_parts path)) content
              w (normalise-is_usable path usable) (normalise-is_usable path usable) in
          let (text', there') = unread other w w' unreadable in
          (w', written, rw unreadable text', rw unreadable there')
    ],
  )
  | inr not_usable ↦ inr (not_usable, refused_write path content w not_usable)
]
