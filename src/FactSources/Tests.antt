-- ===== src/FactSources/Tests.antt =====
-- What the tests of a page say (src/dj_fact_sources.rs), for Sound.
use any_player_sync_server.Prelude.{
  ◌≡◌, ap, refl, Bool, true, false, Option, none, some, List, [], ◌∷◌, Text, codes, text_eq,
  text_eq_iff, any, is_some, arith, ◌⊎◌, inl, inr, Bool-cases,
}
use mathlib.Core.List.{Memᴰ}
use any_player_sync_server.Json.{Value, get, as_str}
use any_player_sync_server.FactSources.Chain.{Ends}
use any_player_sync_server.MatchKeys.{Unicode}
use any_player_sync_server.FactSources.Pointer.{as_array}
use any_player_sync_server.FactSources.Pages.{
  and_then, is_text, keyed, title_matches, names_artist, any_alias, credits_entity,
}
use any_player_sync_server.FactSources.Records.{
  TitlesSong, IsNamed, by_name, by_sort_name, by_alias,
}
use any_player_sync_server.FactSources.{key, exact_structured}

abbrev pub Listed : Text → List Text → Type 0
Listed claim [] = ⊥
Listed claim (fact ∷ facts) = (fact ≡ claim) ⊎ Listed claim facts

any-Listed :
    (claim : Text) (facts : List Text)
    → any (λ fact. text_eq fact claim) facts ≡ true
    → Listed claim facts
any-Listed claim [] h = absurd (cc)
any-Listed claim (fact ∷ facts) h = elim (Bool-cases (text_eq fact claim)) [
  | inl e ↦ inl ((text_eq_iff fact claim).0 e)
  | inr e ↦ inr (any-Listed claim facts (ground (arith, e, h)))
]

pub exact_structured-Ends :
    (evidence claim : Text) (supported : List Text)
    → Ends
        (λ _. (evidence ≡ claim) × Listed claim supported)
        (exact_structured evidence claim supported)
unfolding exact_structured
exact_structured-Ends evidence claim supported = elim (Bool-cases (text_eq evidence claim)) [
  | inl e ↦ elim (Bool-cases (any (λ fact. text_eq fact claim) supported)) [
    | inl e' ↦ rw (e, e') ((text_eq_iff evidence claim).0 e, any-Listed claim supported e')
    | inr e' ↦ rw (e, e') tt
  ]
  | inr e ↦ rw e tt
]

pub any-listed :
    {A : Type 0} (p : A → Bool) (xs : List A) → any p xs ≡ true → (x : A) × Memᴰ x xs × (p x ≡ true)
any-listed p [] h = absurd (cc)
any-listed p (x ∷ xs) h = elim (Bool-cases (p x)) [
  | inl e ↦ (x, Memᴰ.head refl, e)
  | inr e ↦
      let (y, later, passes) = any-listed p xs (ground (arith, e, h)) in
      (y, Memᴰ.tail later, passes)
]

pub is_some-none : {A : Type 0} (o : Option A) → is_some o ≡ false → o ≡ none
is_some-none none h = refl
is_some-none (some a) h = absurd (cc)

pub is_text_sound : (t : Text) (o : Option Text) → is_text t o ≡ true → o ≡ some t
is_text_sound t none h = absurd (cc)
is_text_sound t (some s) h = ap some ((text_eq_iff s t).0 h)

module _ (unicode : Unicode) where
  -- A text that was found, with the same key as `t`.
  abbrev pub Keyed : Text → Option Text → Type 0
  Keyed t o = (s : Text) × (o ≡ some s) × (key unicode s ≡ key unicode t)

  pub keyed-Keyed :
      (t : Text) (o : Option Text) → is_text (key unicode t) (keyed unicode o) ≡ true → Keyed t o
  keyed-Keyed t none h = absurd (cc)
  keyed-Keyed t (some s) h = (s, refl, (text_eq_iff (key unicode s) (key unicode t)).0 h)

  names_artist-Keyed :
      (artist : Text) (o : Option Value)
      → names_artist unicode artist o ≡ true
      → Keyed artist (and_then o as_str)
  names_artist-Keyed artist none h = absurd (cc)
  names_artist-Keyed artist (some v) h = keyed-Keyed artist (as_str v) h

  any_alias-IsNamed :
      (artist : Text) (entity : Value) (o : Option (List Value))
      → and_then (get (codes "aliases") entity) as_array ≡ o
      → any_alias unicode artist o ≡ true
      → IsNamed unicode artist entity
  any_alias-IsNamed artist entity none e h = absurd (cc)
  any_alias-IsNamed artist entity (some aliases) e h =
      let (alias, listed, passes) =
        any-listed (λ alias. names_artist unicode artist (get (codes "name") alias)) aliases h in
      let (s, found, same) = names_artist-Keyed artist (get (codes "name") alias) passes in
      by_alias aliases alias s e listed found same

  pub credits_entity-IsNamed :
      (artist : Text) (o : Option Value)
      → credits_entity unicode artist o ≡ true
      → (entity : Value) × (o ≡ some entity) × IsNamed unicode artist entity
  credits_entity-IsNamed artist none h = absurd (cc)
  credits_entity-IsNamed artist (some entity) h = (entity, refl, named)
    where
      named : IsNamed unicode artist entity
      named = elim (Bool-cases (names_artist unicode artist (get (codes "name") entity))) [
        | inl e ↦ let (s, found, same) = names_artist-Keyed artist _ e in by_name s found same
        | inr e ↦ elim (Bool-cases (names_artist unicode artist (get (codes "sort-name") entity))) [
          | inl e' ↦
              let (s, found, same) = names_artist-Keyed artist _ e' in by_sort_name s found same
          | inr e' ↦ any_alias-IsNamed artist entity _ refl (ground (arith, e, e', h))
        ]
      ]

  pub title_matches-TitlesSong :
      (title song : Text) → title_matches unicode title song ≡ true → TitlesSong unicode title song
  unfolding title_matches
  title_matches-TitlesSong title song h =
      elim (Bool-cases (text_eq (key unicode title) (key unicode song))) [
        | inl e ↦ inl ((text_eq_iff _ _).0 e)
        | inr e ↦ inr (ground (arith, e, h), ground (arith, e, h))
      ]
