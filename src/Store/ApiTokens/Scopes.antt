-- ===== src/Store/ApiTokens/Scopes.antt =====
-- Scopes before and after normalisation.
use dorian_back_end.Prelude.{
  ◌≡◌, refl, sym, ◌⊎◌, Bool, true, false, not, ◌&&◌, ◌||◌, List, [], ◌∷◌, ◌++◌, arith, map, inl,
  inr,
}
use dorian_back_end.Text.{Text, codes, ◌is◌, is_iff, is_refl, member, trim_space}
use dorian_back_end.Store.ApiTokens.{collect, full_if_empty, normalize_scopes}

member-append : (x : Text) (xs ys : List Text) → member x (xs ++ ys) ≡ (member x xs || member x ys)
unfolding member
member-append x [] ys = refl
member-append x (y ∷ xs) ys = ground (arith, member-append x xs ys)

-- What is collected: what stood in `out`, and the trimmed scopes that are not empty.
member-collect :
    (x : Text) (scopes out : List Text)
    → (x is []) ≡ false
    → member x (collect scopes out) ≡ (member x out || member x (map trim_space scopes))
unfolding collect member
member-collect x [] out h = ground arith
member-collect x (scope ∷ rest) out h =
    let trimmed = trim_space scope in
    ground (
      arith,
      member-collect x rest out h,
      member-collect x rest (out ++ (trimmed ∷ [])) h,
      member-append x out (trimmed ∷ []),
      is_iff x trimmed,
    )

-- Whether no text stands in the list twice.
unfoldable pub all_distinct : List Text → Bool
unfolding member
all_distinct [] = true
all_distinct (x ∷ xs) = not (member x xs) && all_distinct xs

all_distinct-append :
    (xs : List Text) (y : Text)
    → all_distinct xs ≡ true
    → member y xs ≡ false
    → all_distinct (xs ++ (y ∷ [])) ≡ true
unfolding all_distinct member
all_distinct-append [] y h new = refl
all_distinct-append (x ∷ xs) y h new =
    ground (arith, all_distinct-append xs y, member-append x xs (y ∷ []), is_iff x y, is_refl x)

all_distinct-collect :
    (scopes out : List Text) → all_distinct out ≡ true → all_distinct (collect scopes out) ≡ true
unfolding collect
all_distinct-collect [] out h = h
all_distinct-collect (scope ∷ rest) out h =
    let trimmed = trim_space scope in
    ground (
      arith,
      all_distinct-collect rest out,
      all_distinct-collect rest (out ++ (trimmed ∷ [])),
      all_distinct-append out trimmed,
    )

-- Every text that is collected is empty only if `out` held it.
member-full_if_empty :
    (xs : List Text) → ((xs ≡ []) × (full_if_empty xs ≡ codes "*" ∷ [])) ⊎ (full_if_empty xs ≡ xs)
member-full_if_empty [] = inl (refl, refl)
member-full_if_empty (x ∷ xs) = inr refl

all_distinct-full_if_empty :
    (xs : List Text) → all_distinct xs ≡ true → all_distinct (full_if_empty xs) ≡ true
unfolding all_distinct member
all_distinct-full_if_empty [] h = refl
all_distinct-full_if_empty (x ∷ xs) h = h

-- Normalised scopes are all different. Where some scope has more than spaces, they are the trimmed
-- scopes that are not empty; otherwise they are full access alone.
pub normalize_scopes_lem :
    (scopes : List Text)
    → (all_distinct (normalize_scopes scopes) ≡ true)
      × (((normalize_scopes scopes ≡ codes "*" ∷ [])
            × ((x : Text) → (x is []) ≡ false → member x (map trim_space scopes) ≡ false))
          ⊎ ((x : Text)
              → (x is []) ≡ false
              → member x (normalize_scopes scopes) ≡ member x (map trim_space scopes)))
unfolding normalize_scopes all_distinct member
normalize_scopes_lem [] = (refl, inl (refl, λ x h. refl))
normalize_scopes_lem (scope ∷ rest) =
    let kept = collect (scope ∷ rest) [] in
    (
      all_distinct-full_if_empty kept (all_distinct-collect (scope ∷ rest) [] refl),
      elim (member-full_if_empty kept) [
        | inl (none_kept, full) ↦
            inl (full, λ x h. rw none_kept at (sym (member-collect x (scope ∷ rest) [] h)))
        | inr same ↦ inr λ x h. rw same (member-collect x (scope ∷ rest) [] h)
      ],
    )
