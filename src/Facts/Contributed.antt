-- ===== src/Facts/Contributed.antt =====
-- What a contribution leaves in the table of facts (src/dj_facts.rs, `contribute`).
use any_player_sync_server.Prelude.{
  ◌≡◌, refl, sym, subst, true, false, Option, none, some, [], ◌∷◌, ◌++◌, Text, text_eq_iff, any,
  find,
}
use mathlib.Core.List.{Memᴰ}
use any_player_sync_server.Errors.{Result, ok, err, panicked}
use any_player_sync_server.World.{World}
use any_player_sync_server.World.Rows.{FactRow}
use any_player_sync_server.World.Keeps.{IsStable}
use any_player_sync_server.World.Runs.{
  Outcome, answered, refused, Runs, Outcome-bind, Runs-statement, Outcome-pure, Outcome-lift,
  Outcome-weaken,
}
use any_player_sync_server.MatchKeys.{Unicode, match_key}
use any_player_sync_server.Accounts.Lookup.{find_sound}
use any_player_sync_server.Handlers.{Headers}
use any_player_sync_server.Handlers.Touched.{OnlyTouched}
use any_player_sync_server.Handlers.Authenticated.{authenticate-Outcome}
use any_player_sync_server.FactSources.Chain.{Ends}
use any_player_sync_server.FactSources.Fetch.{Crates, Net}
use any_player_sync_server.FactSources.Verified.{IsVerified, verify_sound}
use any_player_sync_server.Facts.{
  Contribution, Fact, has_fingerprint, new_fact, insert_or, insert_fact, to_fact,
  valid_contribution, evidence_of,
}
use any_player_sync_server.Facts.Requests.{contribute, normalized}
use any_player_sync_server.Facts.Lookup.{refuse_unless-Outcome}
use any_player_sync_server.Facts.Consistent.{find-any}

pub record FactsKept (start w : World) : Type 0 where
  pub facts : w.facts ≡ start.facts
  pub plays : w.fact_plays ≡ start.fact_plays

pub FactsKept-stable : (start : World) → IsStable (FactsKept start)
FactsKept-stable start = record { faults = λ w rest h. record { facts = h.facts; plays = h.plays } }

-- What a contribution has not changed before the row is written.
record IsUntouched (start w : World) : Type 0 where
  pub facts : w.facts ≡ start.facts
  pub plays : w.fact_plays ≡ start.fact_plays
  pub next : w.next_fact ≡ start.next_fact
  pub clock : w.clock ≡ start.clock

IsUntouched-stable : (start : World) → IsStable (IsUntouched start)
IsUntouched-stable start = record {
  faults = λ w rest h. record { facts = h.facts; plays = h.plays; next = h.next; clock = h.clock };
}

facts_kept : (start w : World) → IsUntouched start w → FactsKept start w
facts_kept start w h = record { facts = h.facts; plays = h.plays }

-- The row of a contribution that is new: the next number, the keys of the song and the artist, the
-- fields of the contribution, and the time.
pub record IsRowOf (start : World) (unicode : Unicode) (input : Contribution) (row : FactRow)
    : Type 0 where
  pub id : row.id ≡ start.next_fact
  pub song_key : row.song_key ≡ match_key unicode input.song
  pub artist_key : row.artist_key ≡ match_key unicode input.artist
  pub song : row.song ≡ input.song
  pub artist : row.artist ≡ input.artist
  pub claim : row.claim ≡ input.claim
  pub source : row.source ≡ input.source
  pub source_id : row.source_id ≡ input.source_id
  pub source_url : row.source_url ≡ input.source_url
  pub evidence : row.evidence ≡ input.evidence
  pub verified_at : row.verified_at ≡ start.clock

-- The only row with the fingerprint: one that was there, with no row written, or a new one.
pub data IsStored (start : World) (unicode : Unicode) (input : Contribution) (fingerprint : Text)
    (row : FactRow) (after : World) : Type 0 where
  found :
      Memᴰ row start.facts
      → FactsKept start after
      → IsStored start unicode input fingerprint row after
  added :
      any (has_fingerprint fingerprint) start.facts ≡ false
      → IsRowOf start unicode input row
      → after.facts ≡ start.facts ++ row ∷ []
      → after.fact_plays ≡ start.fact_plays
      → IsStored start unicode input fingerprint row after

pub record Stores (start : World) (unicode : Unicode) (input : Contribution) (fingerprint : Text)
    (row : FactRow) (after : World) : Type 0 where
  pub stored : IsStored start unicode input fingerprint row after
  pub named : row.fingerprint ≡ fingerprint

module _ (start : World) (unicode : Unicode) (input : Contribution) (source_url fingerprint : Text)
    (cited : input.source_url ≡ source_url) where
  insert_or-Stores :
      (w : World) (o : Option FactRow)
      → find (has_fingerprint fingerprint) w.facts ≡ o
      → IsUntouched start w
      → Outcome (IsUntouched start) (Stores start unicode input fingerprint) (
          insert_or o
            (new_fact w.next_fact w.clock (match_key unicode) input source_url fingerprint)
            w)
  insert_or-Stores w (some old) e kept =
      let (listed, same) = find_sound (has_fingerprint fingerprint) w.facts old e in
      answered old _ (record {
        stored =
            found (subst (Memᴰ old) kept.facts listed)
              (record { facts = kept.facts; plays = kept.plays });
        named = (text_eq_iff old.fingerprint fingerprint).0 same;
      })
  insert_or-Stores w none e kept = answered _ _ (record {
    stored =
        added
          (subst (λ fs. any (has_fingerprint fingerprint) fs ≡ false) kept.facts
            (find-any _ w.facts e))
          (record {
            id = kept.next;
            song_key = refl;
            artist_key = refl;
            song = refl;
            artist = refl;
            claim = refl;
            source = refl;
            source_id = refl;
            source_url = sym cited;
            evidence = refl;
            verified_at = kept.clock;
          })
          (rw kept.facts refl) kept.plays;
    named = refl;
  })

  insert_fact-Stores :
      Runs
        (IsUntouched start)
        (Stores start unicode input fingerprint)
        (insert_fact (match_key unicode) input source_url fingerprint)
  unfolding insert_fact
  insert_fact-Stores = record { at = λ w kept. insert_or-Stores w _ refl kept }

Ends-Outcome :
    {A : Type 0} {P : World → Type 0} (Q : A → Type 0) (r : Result A) (w : World)
    → P w
    → Ends Q r
    → Outcome P (λ a after. P after × Q a) (r, w)
Ends-Outcome Q (ok a) w p h = answered a w (p, h)
Ends-Outcome Q (err e) w p h = refused e w p
Ends-Outcome Q panicked w p h = absurd h

module _ (hash_token : Text → Text) (headers : Headers) (unicode : Unicode)
    (sha256_hex : Text → Text) (crates : Crates) (net : Net) (input : Contribution)
    (w : World) where
  -- What an answer to the contribution stands for.
  pub record IsContributed (fact : Fact) (after : World) : Type 0 where
    pub valid : valid_contribution input ≡ true
    pub verified : IsVerified unicode crates (evidence_of input) net input.source_url
    pub row : FactRow
    pub answer : fact ≡ to_fact row
    pub stores : Stores w unicode input (sha256_hex (normalized unicode input)) row after

  contribute-Untouched :
      Outcome
        (IsUntouched w)
        IsContributed
        (contribute hash_token headers unicode sha256_hex crates net input w)
  unfolding contribute
  contribute-Untouched =
      Outcome-bind _ _ w
        (Outcome-weaken _ untouched (λ user. untouched) (authenticate-Outcome hash_token headers w))
        λ user after kept _.
          Outcome-bind _ _ after
            (Outcome-lift _ after (refuse_unless-Outcome (valid_contribution input) _ after kept))
            λ _ at1 (kept1, valid) _.
              Outcome-bind _ _ at1
                (Outcome-lift _ at1 (
                  Ends-Outcome _ _ at1 kept1
                    (verify_sound unicode crates (evidence_of input) net).answers))
                λ source_url at2 (kept2, verified) _.
                  Outcome-bind _ _ at2 (Outcome-lift _ at2 (refuse_unless-Outcome _ _ at2 kept2))
                    λ _ at3 (kept3, same) _.
                      let cited = (text_eq_iff input.source_url source_url).0 same in
                      Outcome-bind _ _ at3
                        ((Runs-statement _ _ (IsUntouched-stable w) (
                            insert_fact-Stores w unicode input source_url
                              (sha256_hex (normalized unicode input)) cited)).at
                          at3 kept3)
                        λ row done stores _. Outcome-pure _ done (record {
                          valid = valid;
                          verified =
                              subst (IsVerified unicode crates (evidence_of input) net) (sym cited)
                                verified;
                          row = row;
                          answer = refl;
                          stores = stores;
                        })
    where
      untouched : (after : World) → OnlyTouched w after → IsUntouched w after
      untouched after t = record {
        facts = t.facts;
        plays = t.fact_plays;
        next = t.next_fact;
        clock = t.clock;
      }

  -- Whatever statement fails and whatever the network answers: a contribution never panics, and one
  -- that is refused leaves the facts and the plays as they were. One that is answered has cited its
  -- source's canonical address, and the pages that the network gave for the record support it, as
  -- the verification demands. The answer is the fact with the fingerprint of the contribution: one
  -- that was there, or a new one behind the others, with the next number, the keys of the song and
  -- the artist, the fields of the contribution and the time. No other fact and no play is changed.
  pub contribute_stores :
      Outcome
        (FactsKept w)
        IsContributed
        (contribute hash_token headers unicode sha256_hex crates net input w)
  contribute_stores = Outcome-weaken _ (facts_kept w) (λ _ _ k. k) contribute-Untouched
