-- ===== src/FactSources/Verified.antt =====
-- The verification of a contribution, from its source identity to the last answer of the network.
use any_player_sync_server.Prelude.{
  ◌≡◌, refl, Bool, true, false, ◌||◌, Option, none, some, List, String, Text, codes, text_eq,
  text_eq_iff, arith, inl, inr, Bool-cases, is_some, if◌then◌else◌,
}
use any_player_sync_server.Json.{Value}
use any_player_sync_server.Errors.{Result, ok, err, panicked, internal, plain}
use any_player_sync_server.MatchKeys.{Unicode}
use any_player_sync_server.FactSources.Chain.{
  Ends, Ends-weaken, Ends-or_invalid, Ends-refuse_if, or_invalid,
}
use any_player_sync_server.FactSources.Read.{IsRead, fetch-IsRead}
use any_player_sync_server.FactSources.Records.{OnWikipedia, OnMusicbrainz, OnWikidata}
use any_player_sync_server.FactSources.Sound.{
  check_wikipedia-Ends, check_musicbrainz-Ends, check_wikidata-Ends,
}
use any_player_sync_server.FactSources.Fetch.{Crates, Net, fetch}
use any_player_sync_server.FactSources.Bounds.{
  Anything, Asks, Asks-then_check, Asks-go_on, Asks-go_on_after, Asks-more, fetch-Asks,
  Asks-refused,
}
use any_player_sync_server.FactSources.Verify.{
  Evidence, verify, verify_record, verify_wikipedia, verify_musicbrainz, verify_wikidata,
  then_check, with_client, check_linked, linked_ids, lang_or_en, wikipedia_query, musicbrainz_query,
  song_query, artists_query,
}
use any_player_sync_server.FactSources.{canonical, is_wikipedia_id, wikipedia_lang}

linked_ids-Ends : (source_id : Text) (page : Value) → Ends Anything (linked_ids source_id page)
unfolding linked_ids
linked_ids-Ends source_id page =
    Ends-or_invalid Anything _ _ _ λ performers found. Ends-refuse_if Anything _ _ _ λ some_left. tt

or_invalid-Ends : {A : Type 0} (o : Option A) (m : String) → Ends (λ a. o ≡ some a) (or_invalid o m)
unfolding or_invalid
or_invalid-Ends none m = tt
or_invalid-Ends (some a) m = refl

-- A source that has a canonical address is one of the three kinds.
canonical_source :
    (unicode : Unicode) (source id url : Text)
    → canonical unicode source id ≡ some url
    → is_some (wikipedia_lang source)
        || text_eq source (codes "musicbrainz")
        || text_eq source (codes "wikidata")
      ≡ true
unfolding canonical is_wikipedia_id
canonical_source unicode source id url h = elim (Bool-cases (is_some (wikipedia_lang source))) [
  | inl e ↦ rw e refl
  | inr e ↦ elim (Bool-cases (text_eq source (codes "musicbrainz"))) [
    | inl m ↦ rw (e, m) refl
    | inr m ↦ elim (Bool-cases (text_eq source (codes "wikidata"))) [
      | inl q ↦ rw (e, m, q) refl
      | inr q ↦ absurd (ground (arith, e, m, q, h))
    ]
  ]
]

-- The text of the record that a source identity names supports the claim: what `fetch` gives for
-- the record's address passes Records.
pub data IsSupported (unicode : Unicode) (crates : Crates) (e : Evidence) (net : Net) : Type 0 where
  on_wikipedia :
      is_some (wikipedia_lang e.source) ≡ true
      → (page : Value)
      → IsRead crates
          (wikipedia_query crates (lang_or_en (wikipedia_lang e.source)) e.source_id)
          net
          page
      → OnWikipedia unicode page e.source_id e.song e.artist e.claim
      → IsSupported unicode crates e net
  on_musicbrainz :
      e.source ≡ codes "musicbrainz"
      → (page : Value) → IsRead crates (musicbrainz_query e.source_id) net page
      → OnMusicbrainz unicode page e.source_id e.song e.artist e.claim
      → IsSupported unicode crates e net
  on_wikidata :
      e.source ≡ codes "wikidata"
      → (page : Value) → IsRead crates (song_query e.source_id) net page
      → (ids : List Text) → linked_ids e.source_id page ≡ ok ids
      → (linked : Value)
      → IsRead crates (artists_query ids) (fetch crates (song_query e.source_id) net).1 linked
      → OnWikidata unicode page linked e.source_id e.song e.artist e.claim
      → IsSupported unicode crates e net

-- The address is that of the record which was read, the evidence is the claim word for word, and the
-- record supports it.
pub record IsVerified (unicode : Unicode) (crates : Crates) (e : Evidence) (net : Net) (url : Text)
    : Type 0 where
  pub address : canonical unicode e.source e.source_id ≡ some url
  pub quoted : e.evidence ≡ e.claim
  pub supported : IsSupported unicode crates e net

Ends-is_ok : {A : Type 0} (r : Result A) → Ends Anything r → Ends (λ a. r ≡ ok a) r
Ends-is_ok (ok a) h = refl
Ends-is_ok (err e) h = tt
Ends-is_ok panicked h = h

module _ (unicode : Unicode) (crates : Crates) (e : Evidence) where
  abbrev Supported : Net → Unit {0} → Type 0
  Supported net _ = (e.evidence ≡ e.claim) × IsSupported unicode crates e net

  fetch-Reads :
      (url : Text) (net : Net)
      → Asks (λ page. (fetch crates url net).0 ≡ ok page) 3 750 net (fetch crates url net)
  fetch-Reads url net =
      let h = fetch-Asks crates url net in
      record { answers = Ends-is_ok _ h.answers; within = h.within }

  verify_wikipedia-Asks :
      (net : Net)
      → is_some (wikipedia_lang e.source) ≡ true
      → Asks (Supported net) 3 750 net (verify_wikipedia unicode crates e net)
  unfolding verify_wikipedia
  verify_wikipedia-Asks net known =
      Asks-then_check _ (Supported net) 3 750 net _ _ (fetch-Reads _ net) λ page fetched.
        Ends-weaken _ (Supported net) _
          (λ _ (quoted, on).
            (quoted, on_wikipedia known page (fetch-IsRead crates _ net page fetched) on))
          (check_wikipedia-Ends unicode e.source_id e.song e.artist e.evidence e.claim page)

  verify_musicbrainz-Asks :
      (net : Net)
      → e.source ≡ codes "musicbrainz"
      → Asks (Supported net) 3 750 net (verify_musicbrainz unicode crates e net)
  unfolding verify_musicbrainz
  verify_musicbrainz-Asks net known =
      Asks-then_check _ (Supported net) 3 750 net _ _ (fetch-Reads _ net) λ page fetched.
        Ends-weaken _ (Supported net) _
          (λ _ (quoted, on).
            (quoted, on_musicbrainz known page (fetch-IsRead crates _ net page fetched) on))
          (check_musicbrainz-Ends unicode e.source_id e.song e.artist e.evidence e.claim page)

  check_linked-Asks :
      (start : Net) (page : Value) (ids : List Text)
      → e.source ≡ codes "wikidata"
      → (fetch crates (song_query e.source_id) start).0 ≡ ok page
      → linked_ids e.source_id page ≡ ok ids
      → Asks
          (Supported start)
          3
          750
          (fetch crates (song_query e.source_id) start).1
          (check_linked unicode crates e page ids (fetch crates (song_query e.source_id) start).1)
  check_linked-Asks start page ids known fetched listed =
      Asks-then_check _ (Supported start) 3 750 _ _ _ (fetch-Reads _ _) λ linked fetched'.
        Ends-weaken _ (Supported start) _
          (λ _ (quoted, on). (
            quoted,
            on_wikidata known page (fetch-IsRead crates _ start page fetched) ids listed linked
                (fetch-IsRead crates _ _ linked fetched') on,
          ))
          (check_wikidata-Ends unicode e.source_id e.song e.artist e.evidence e.claim page linked)

  verify_wikidata-Asks :
      (net : Net)
      → e.source ≡ codes "wikidata"
      → Asks (Supported net) 6 1500 net (verify_wikidata unicode crates e net)
  unfolding verify_wikidata
  verify_wikidata-Asks net known =
      Asks-go_on_after _ (Supported net) 3 750 3 750 net _ _ (fetch-Reads _ net) λ page fetched.
        Asks-go_on (λ ids. linked_ids e.source_id page ≡ ok ids) (Supported net) 3 750 _ _ _
          (Ends-is_ok _ (linked_ids-Ends e.source_id page))
          λ ids listed. check_linked-Asks net page ids known fetched listed

  verify_record-Asks :
      (net : Net)
      → is_some (wikipedia_lang e.source)
          || text_eq e.source (codes "musicbrainz")
          || text_eq e.source (codes "wikidata")
        ≡ true
      → Asks (Supported net) 6 1500 net (verify_record unicode crates e net)
  unfolding verify_record
  verify_record-Asks net known = elim (Bool-cases (is_some (wikipedia_lang e.source))) [
    | inl l ↦ rw l (Asks-more (verify_wikipedia-Asks net l))
    | inr l ↦ elim (Bool-cases (text_eq e.source (codes "musicbrainz"))) [
      | inl m ↦ rw (l, m) (Asks-more (verify_musicbrainz-Asks net ((text_eq_iff e.source _).0 m)))
      | inr m ↦
          let q : text_eq e.source (codes "wikidata") ≡ true = ground (arith, l, m, known) in
          rw (l, m, q) (verify_wikidata-Asks net ((text_eq_iff e.source _).0 q))
    ]
  ]

  when_built :
      (b : Bool) (url : Text) (net : Net)
      → canonical unicode e.source e.source_id ≡ some url
      → Asks (IsVerified unicode crates e net) 6 1500 net (
          if b
          then then_check (verify_record unicode crates e net) (λ _. ok url)
          else (err (internal (plain "source client unavailable")), net))
  when_built true url net address =
      Asks-then_check (Supported net) (IsVerified unicode crates e net) 6 1500 net
        (verify_record unicode crates e net) (λ _. ok url)
        (verify_record-Asks net (canonical_source unicode e.source e.source_id url address))
        λ _ (quoted, h). record { address = address; quoted = quoted; supported = h }
  when_built false url net address = Asks-refused

  -- Whatever the network answers: the verification of a contribution ends, within six requests and
  -- 1.5 seconds of waiting between them, and it never panics. If it gives an address, that is the
  -- canonical one of the source identity, the evidence is the claim word for word, and the pages
  -- that the network gave for the record support it. These come from successful replies with bodies
  -- of at most 512000 bytes. A page of Wikipedia is the one that was asked for, on the song, not a
  -- redirect, with the claim in its extract, and the claim contains the song and the artist, by
  -- their keys. A recording of MusicBrainz has the id, the title and a credit of the artist, and the
  -- claim is the sentence of the credit or of the page's release date. An entity of Wikidata has the
  -- id, the label and a performer whose own entity is labelled with the artist, and the claim is the
  -- sentence of the performance.
  pub verify_sound :
      (net : Net) → Asks (IsVerified unicode crates e net) 6 1500 net (verify unicode crates e net)
  unfolding verify
  verify_sound net =
      Asks-go_on (λ url. canonical unicode e.source e.source_id ≡ some url)
        (IsVerified unicode crates e net) 6 1500 net
        (or_invalid (canonical unicode e.source e.source_id) "unsupported source identity")
        (with_client unicode crates e)
        (or_invalid-Ends (canonical unicode e.source e.source_id) "unsupported source identity")
        λ url address. when_built net.client_builds url net address
