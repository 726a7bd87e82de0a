-- ===== src/MatchKeys/Base.antt =====
-- What `base_title` (src/match_keys.rs) takes away of a title, and what it leaves.
use any_player_sync_server.Prelude.{
  ℕ, ◌≡◌, ◌⊎◌, true, false, none, some, [], ◌∷◌, ◌++◌, Text, codes, ◌==◌, any, last?,
}
use any_player_sync_server.Strings.{starts_with, is_empty, trim_end}
use any_player_sync_server.MatchKeys.{Unicode, opening, strip_qualifier, drop_last, is_qualifier}

-- No separator begins within `part`, where `rest` comes behind it.
abbrev Unbroken : Text → Text → Text → Type 0
Unbroken sep [] rest = Unit
Unbroken sep (c ∷ part) rest = (starts_with (c ∷ part ++ rest) sep ≡ false) × Unbroken sep part rest

-- The part of a text before the first separator, or the whole text without one.
pub record IsFirstPart (sep text part : Text) : Type 0 where
  pub rest : Text
  pub whole : text ≡ part ++ rest
  pub ends : (rest ≡ []) ⊎ (starts_with rest sep ≡ true)
  pub unbroken : Unbroken sep part rest

module _ (unicode : Unicode) where
  -- `base` ends in a bracketed qualifier behind `before`, which is not empty.
  pub record IsQualified (base before : Text) : Type 0 where
    pub after : Text
    pub close : ℕ
    pub bracket : ℕ
    pub closes : last? base ≡ some close
    pub opens : opening close ≡ some bracket
    pub whole : base ≡ before ++ bracket ∷ after
    pub last : any (λ d. d == bracket) after ≡ false
    pub qualifier : is_qualifier unicode (unicode.to_lowercase (drop_last after)) ≡ true
    pub some_left : is_empty before ≡ false

  -- Rounds, each of which takes one qualifier and the white space before it away.
  pub data Strips : Text → Text → Type 0 where
    done : (base : Text) → Strips base base
    round :
        {base left : Text} (before : Text)
        → IsQualified base before
        → Strips (trim_end before) left
        → Strips base left

  pub record IsBase (title base : Text) : Type 0 where
    pub part : Text
    pub first : IsFirstPart (codes " - ") title part
    pub left : Text
    pub strips : Strips (trim_end part) left
    pub finished : strip_qualifier unicode left ≡ none
    pub answer : ((is_empty left ≡ false) × (base ≡ left)) ⊎ ((left ≡ []) × (base ≡ title))
