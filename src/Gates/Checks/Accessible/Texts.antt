-- ===== src/Gates/Checks/Accessible/Texts.antt =====
-- The texts of an analysis, and those that `_udl_strings` of pebs/gates.py finds in it.
use pebs.Base.{ℕ, ◌+◌, ◌++◌, ◌↔◌, Text, codes, decimal, All, All-append, List, [], ◌∷◌}
use pebs.Gates.Documents.{
  Json, string, object, array, other, Members, no_member, member, Elements, no_element, element,
}
use pebs.Gates.Checks.Accessible.{udl_strings, member_strings, element_strings}

mutual
  -- The text stands in the value, under whatever keys and in whatever lists.
  pub data IsTextOf (t : Text) : Json → Type 0 where
    itself : IsTextOf t (string t)
    of_object : {members : Members} → IsMemberText t members → IsTextOf t (object members)
    of_array : {elements : Elements} → IsElementText t elements → IsTextOf t (array elements)

  pub data IsMemberText (t : Text) : Members → Type 0 where
    this_member :
        {key : Text} {value : Json} {members : Members}
        → IsTextOf t value
        → IsMemberText t (member key value members)
    later_member :
        {key : Text} {value : Json} {members : Members}
        → IsMemberText t members
        → IsMemberText t (member key value members)

  pub data IsElementText (t : Text) : Elements → Type 0 where
    this_element :
        {value : Json} {elements : Elements}
        → IsTextOf t value
        → IsElementText t (element value elements)
    later_element :
        {value : Json} {elements : Elements}
        → IsElementText t elements
        → IsElementText t (element value elements)

All-halves : {A : Type 0} (P : A → Type 0) (xs ys : List A) → All P (xs ++ ys) → All P xs × All P ys
All-halves P [] ys h = (tt, h)
All-halves P (x ∷ xs) ys h = let (a, b) = All-halves P xs ys h.1 in ((h.0, a), b)

module _ (P : Text → Type 0) where
  abbrev Found : Text × Text → Type 0
  Found p = P p.1

  mutual
    unfolding udl_strings

    text_found :
        (t : Text) (json : Json) (path : Text)
        → All Found (udl_strings path json)
        → IsTextOf t json
        → P t
    text_found t (string u) path h itself = h.0
    text_found t (object members) path h (of_object m) = member_found t members path h m
    text_found t (array elements) path h (of_array m) = element_found t elements path 0 h m
    text_found t other path h m = elim m [ ]

    member_found :
        (t : Text) (members : Members) (path : Text)
        → All Found (member_strings path members)
        → IsMemberText t members
        → P t
    member_found t no_member path h m = elim m [ ]
    member_found t (member key value members) path h (this_member m) =
        text_found t value (path ++ codes "." ++ key) (All-halves Found _ _ h).0 m
    member_found t (member key value members) path h (later_member m) =
        member_found t members path (All-halves Found _ _ h).1 m

    element_found :
        (t : Text) (elements : Elements) (path : Text) (index : ℕ)
        → All Found (element_strings path index elements)
        → IsElementText t elements
        → P t
    element_found t no_element path index h m = elim m [ ]
    element_found t (element value elements) path index h (this_element m) =
        text_found t value (path ++ codes "[" ++ decimal index ++ codes "]")
          (All-halves Found _ _ h).0 m
    element_found t (element value elements) path index h (later_element m) =
        element_found t elements path (index + 1) (All-halves Found _ _ h).1 m

  mutual
    unfolding udl_strings

    Found-udl_strings :
        (json : Json) (path : Text)
        → ((t : Text) → IsTextOf t json → P t)
        → All Found (udl_strings path json)
    Found-udl_strings (string u) path h = (h u itself, tt)
    Found-udl_strings (object members) path h =
        Found-member_strings members path (λ t m. h t (of_object m))
    Found-udl_strings (array elements) path h =
        Found-element_strings elements path 0 (λ t m. h t (of_array m))
    Found-udl_strings other path h = tt

    Found-member_strings :
        (members : Members) (path : Text)
        → ((t : Text) → IsMemberText t members → P t)
        → All Found (member_strings path members)
    Found-member_strings no_member path h = tt
    Found-member_strings (member key value members) path h =
        All-append Found _ _
          (Found-udl_strings value (path ++ codes "." ++ key) (λ t m. h t (this_member m)))
          (Found-member_strings members path (λ t m. h t (later_member m)))

    Found-element_strings :
        (elements : Elements) (path : Text) (index : ℕ)
        → ((t : Text) → IsElementText t elements → P t)
        → All Found (element_strings path index elements)
    Found-element_strings no_element path index h = tt
    Found-element_strings (element value elements) path index h =
        All-append Found _ _
          (Found-udl_strings value (path ++ codes "[" ++ decimal index ++ codes "]")
            (λ t m. h t (this_element m)))
          (Found-element_strings elements path (index + 1) (λ t m. h t (later_element m)))

  -- Each text that is found has the property exactly when each text of the value has it.
  pub udl_strings_iff :
      (path : Text) (json : Json)
      → All Found (udl_strings path json) ↔ ((t : Text) → IsTextOf t json → P t)
  udl_strings_iff path json = (λ h t m. text_found t json path h m, Found-udl_strings json path)
