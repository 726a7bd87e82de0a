-- ===== src/FactSources/Sound.antt =====
-- A page that passes one of the checks supports the claim, in the sense of Records.
use any_player_sync_server.Prelude.{
  ◌≡◌, sym, ap, ◌∙◌, subst, refl, true, Option, none, some, List, [], ◌∷◌, ◌++◌, Text, codes,
  text_eq_iff, arith, inl, inr,
}
use any_player_sync_server.Json.{Value, Fields, end, field, get, as_str}
use any_player_sync_server.FactSources.Chain.{
  Ends, Ends-bind, Ends-or_invalid, Ends-refuse_if, Ends-refuse, Ends-weaken,
}
use any_player_sync_server.Strings.{contains}
use any_player_sync_server.MatchKeys.{Unicode}
use any_player_sync_server.FactSources.Pointer.{pointer}
use any_player_sync_server.FactSources.Pages.{
  check_wikipedia, check_musicbrainz, check_wikidata, credit_sentence, performance_sentence,
  with_release, and_then, only, is_credited, is_performer, performer_ids,
}
use any_player_sync_server.FactSources.Records.{
  OnWikipedia, OnMusicbrainz, OnWikidata, IsStated, credited, released,
}
use any_player_sync_server.FactSources.{key, valid_qid, exact_structured}
use any_player_sync_server.FactSources.Tests.{
  Listed, exact_structured-Ends, any-listed, is_some-none, is_text_sound, Keyed, keyed-Keyed,
  credits_entity-IsNamed, title_matches-TitlesSong,
}

module _ (unicode : Unicode) (id song artist evidence claim : Text) where
  -- The claim is the evidence word for word, and the page supports it.
  abbrev pub Quotes : Type 0 → Unit {0} → Type 0
  Quotes Supported _ = (evidence ≡ claim) × Supported

  with_release-IsStated :
      (page : Value) (date : Option Text)
      → and_then (get (codes "first-release-date") page) as_str ≡ date
      → Listed claim (with_release song date (credit_sentence song artist ∷ []))
      → IsStated unicode page song artist claim
  with_release-IsStated page none e (inl h) = credited (sym h)
  with_release-IsStated page none e (inr h) = elim h [ ]
  with_release-IsStated page (some []) e (inl h) = credited (sym h)
  with_release-IsStated page (some []) e (inr h) = elim h [ ]
  with_release-IsStated page (some (c ∷ date)) e (inl h) = credited (sym h)
  with_release-IsStated page (some (c ∷ date)) e (inr (inl h)) = released (c ∷ date) e (sym h)
  with_release-IsStated page (some (c ∷ date)) e (inr (inr h)) = elim h [ ]

  exactly :
      (P : Type 0) (supported : List Text)
      → (Listed claim supported → P)
      → Ends (Quotes P) (exact_structured evidence claim supported)
  exactly P supported h =
      Ends-weaken _ (Quotes P) _ (λ _ (same, listed). (same, h listed))
        (exact_structured-Ends evidence claim supported)

  pub check_musicbrainz-Ends :
      (page : Value)
      → Ends
          (Quotes (OnMusicbrainz unicode page id song artist claim))
          (check_musicbrainz unicode page id song artist evidence claim)
  unfolding check_musicbrainz is_credited
  check_musicbrainz-Ends page =
      let Q = Quotes (OnMusicbrainz unicode page id song artist claim) in
      Ends-refuse_if Q _ _ _ λ matches. Ends-or_invalid Q _ _ _ λ credits found.
        Ends-refuse_if Q _ _ _ λ passed.
          exactly (OnMusicbrainz unicode page id song artist claim) _ λ listed.
            let (title, titled, on_song) = keyed-Keyed unicode song _ (ground (arith, matches)) in
            let (credit, credit_listed, credits_it) =
              any-listed (is_credited unicode artist) credits (ground (arith, passed)) in
            let (entity, of_credit, named) =
              credits_entity-IsNamed unicode artist (get (codes "artist") credit) credits_it in
            record {
              identity = is_text_sound id _ (ground (arith, matches));
              title = title;
              titled = titled;
              on_song = on_song;
              credits = credits;
              listed = found;
              credit = credit;
              credit_listed = credit_listed;
              entity = entity;
              of_credit = of_credit;
              named = named;
              stated = with_release-IsStated page _ refl listed;
            }

  performs :
      (linked : Value) (performer : Text)
      → is_performer unicode linked artist performer ≡ true
      → (valid_qid performer ≡ true)
        × (and_then (pointer ((codes "/entities/" ++ performer) ++ codes "/id") linked) as_str
            ≡ some performer)
        × Keyed unicode artist (
            and_then
              (pointer ((codes "/entities/" ++ performer) ++ codes "/labels/en/value") linked)
              as_str)
  unfolding is_performer
  performs linked performer h = (
    ground (arith, h),
    is_text_sound performer _ (ground (arith, h)),
    keyed-Keyed unicode artist _ (ground (arith, h)),
  )

  pub check_wikidata-Ends :
      (page linked : Value)
      → Ends
          (Quotes (OnWikidata unicode page linked id song artist claim))
          (check_wikidata unicode page linked id song artist evidence claim)
  unfolding check_wikidata
  check_wikidata-Ends page linked =
      let Q = Quotes (OnWikidata unicode page linked id song artist claim) in
      Ends-or_invalid Q _ _ _ λ entity found. Ends-refuse_if Q _ _ _ λ matches.
        Ends-or_invalid Q _ _ _ λ performers listed. Ends-refuse_if Q _ _ _ λ passed.
          exactly (OnWikidata unicode page linked id song artist claim)
            (performance_sentence song artist ∷ [])
            λ l.
              let (label, labelled, on_song) =
                keyed-Keyed unicode song _ (ground (arith, matches)) in
              let (performer, performer_listed, is_one) =
                any-listed (is_performer unicode linked artist) (performer_ids performers)
                  (ground (arith, passed)) in
              let (valid, linked_identity, (name, linked_label, by_artist)) =
                performs linked performer is_one in
              record {
                entity = entity;
                found = found;
                identity = is_text_sound id _ (ground (arith, matches));
                label = label;
                labelled = labelled;
                on_song = on_song;
                performers = performers;
                listed = listed;
                performer = performer;
                performer_listed = performer_listed;
                valid = valid;
                linked_identity = linked_identity;
                name = name;
                linked_label = linked_label;
                by_artist = by_artist;
                stated = elim l [ inl e ↦ sym e | inr e ↦ elim e [ ] ];
              }

  only-Ends : (fs : Fields) → Ends (λ entry. (k : Text) × (fs ≡ field k entry end)) (only fs)
  only-Ends end = tt
  only-Ends (field k v end) = (k, refl)
  only-Ends (field k v (field _ _ _)) = tt

  -- The same text, in the words of the claim.
  in_claim :
      (t : Text)
      → evidence ≡ claim
      → contains (key unicode evidence) t ≡ true
      → contains (key unicode claim) t ≡ true
  in_claim t e h = subst (λ s. contains (key unicode s) t ≡ true) e h

  pub check_wikipedia-Ends :
      (page : Value)
      → Ends
          (Quotes (OnWikipedia unicode page id song artist claim))
          (check_wikipedia unicode page id song artist evidence claim)
  unfolding check_wikipedia
  check_wikipedia-Ends page =
      let Q = Quotes (OnWikipedia unicode page id song artist claim) in
      Ends-refuse_if Q _ _ _ λ direct. Ends-or_invalid Q _ _ _ λ pages found.
        Ends-bind Q _ _ _ (only-Ends pages) λ entry (name, single).
          Ends-or_invalid Q _ _ _ λ title titled. Ends-or_invalid Q _ _ _ λ extract extracted.
            Ends-refuse Q _ _ λ passed.
              let same : evidence ≡ claim =
                (text_eq_iff evidence claim).0 (ground (arith, passed)) in
              (
                same,
                record {
                  direct = is_some-none _ direct;
                  name = name;
                  entry = entry;
                  single = found ∙ ap some single;
                  present = is_some-none _ (ground (arith, passed));
                  title = title;
                  titled = titled;
                  asked_for = (text_eq_iff _ _).0 (ground (arith, passed));
                  on_song = title_matches-TitlesSong unicode title song (ground (arith, passed));
                  extract = extract;
                  extracted = extracted;
                  some_claim = ground (arith, passed);
                  quoted = subst (λ s. contains extract s ≡ true) same (ground (arith, passed));
                  names_song = in_claim _ same (ground (arith, passed));
                  names_artist = in_claim _ same (ground (arith, passed));
                },
              )
