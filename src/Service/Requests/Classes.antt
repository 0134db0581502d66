-- ===== src/Service/Requests/Classes.antt =====
-- The methods that src/main.rs dispatches, against the classes of src/domain/classification.rs.
use liuzx_skf.Domain.Classification.{classify, classified_methods}
use liuzx_skf.Domain.Dispatch.{branches, method_of}
use liuzx_skf.Service.Dispatch.{Branch, own_branches, import_key_pair}
use liuzx_skf.Service.Requests.{route, own, unknown, other_methods}
use liuzx_skf.Common.{
  Bool-cases, Text, ◌===◌, text_eq, text_eq_iff, text, text_beq, get-remove, get, remove, ◌≡◌, refl,
  sym, ap, ◌∙◌, ◌⊎◌, inl, inr, Bool, true, false, none, some, List, [], ◌∷◌, arith,
}

-- Each key of the one map is a key of the other.
unfoldable covered : {A B : Type 0} → List (Text × A) → List (Text × B) → Bool
covered [] n = true
covered ((k, a) ∷ m) n = let rest = covered m n in elim (get k n) [ none ↦ false | some b ↦ rest ]

get_eq : {B : Type 0} (i j : Text) (l : List (Text × B)) → i ≡ j → get i l ≡ get j l
get_eq i j l p = ap (λ x. get x l) p

get-covered :
    {A B : Type 0} (name : Text) (m : List (Text × A)) (n : List (Text × B))
    → covered m n ≡ true
    → get name n ≡ none
    → get name m ≡ none
unfolding covered get
get-covered name [] n c h = refl
get-covered name ((k, a) ∷ m) n c h =
    ground (arith, get-covered name m n, text_eq_iff k name, get_eq k name n)

-- The branches but `ImportKeyPair`.
abbrev other_branches : List (Text × Branch)
other_branches = remove (text "ImportKeyPair") own_branches

other_branches-covered : covered other_branches classified_methods ≡ true
unfolding covered own_branches classified_methods get remove text text_beq
other_branches-covered = refl

branches-covered : covered branches classified_methods ≡ true
unfolding covered branches classified_methods get text text_beq
branches-covered = refl

abbrev language_method : List (Text × Unit {0})
language_method = (text "SetLanguage", tt) ∷ []

language-covered : covered language_method classified_methods ≡ true
unfolding covered classified_methods get text text_beq
language-covered = refl

other_methods-covered : covered other_methods classified_methods ≡ true
unfolding covered other_methods classified_methods get text text_beq
other_methods-covered = refl

own_branches_cases :
    (name : Text)
    → get name other_branches ≡ none
    → (name ≡ text "ImportKeyPair") ⊎ (get name own_branches ≡ none)
own_branches_cases name h = elim (Bool-cases (text "ImportKeyPair" === name)) [
  | inl e ↦ inl (sym ((text_eq_iff (text "ImportKeyPair") name).0 e))
  | inr e ↦ inr (ground (arith, get-remove (text "ImportKeyPair") name own_branches))
]

not_language : (name : Text) → get name language_method ≡ none → name === text "SetLanguage" ≡ false
unfolding get
not_language name h =
    ground (arith, text_eq_iff (text "SetLanguage") name, text_eq_iff name (text "SetLanguage"))

import_key_pair-own : route (text "ImportKeyPair") ≡ own import_key_pair
unfolding route own_branches get text text_beq
import_key_pair-own = refl

-- A method without a class is turned away as unknown, unless it is `ImportKeyPair`, which is
-- dispatched and has no class.
pub route-classify :
    (name : Text)
    → classify name ≡ none
    → (route name ≡ unknown) ⊎ ((name ≡ text "ImportKeyPair") × (route name ≡ own import_key_pair))
unfolding classify route method_of
route-classify name h =
    let but_one = get-covered name other_branches classified_methods other_branches-covered h in
    let dom = get-covered name branches classified_methods branches-covered h in
    let lang =
      not_language name (get-covered name language_method classified_methods language-covered h) in
    let one = get-covered name other_methods classified_methods other_methods-covered h in
    elim (own_branches_cases name but_one) [
      | inl e ↦ inr (e, ap route e ∙ import_key_pair-own)
      | inr e ↦ inl (rw (route, method_of, lang, e, dom, one) refl)
    ]
