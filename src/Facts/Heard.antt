-- ===== src/Facts/Heard.antt =====
-- What the event that a fact was played leaves in the table of plays (src/dj_facts.rs, `played`).
use any_player_sync_server.Prelude.{
  ℕ, ◌≡◌, ◌⊎◌, inl, inr, refl, subst, true, false, Option, none, some, [], ◌∷◌, ◌++◌, ℤ, pos_part,
  Text, ◌==◌, any, find, arith, Bool-cases,
}
use mathlib.Core.List.{Memᴰ}
use any_player_sync_server.Errors.{ok}
use any_player_sync_server.Models.{AuthenticatedUser}
use any_player_sync_server.World.{World, now}
use any_player_sync_server.World.Rows.{FactPlayRow}
use any_player_sync_server.World.Runs.{
  Outcome, answered, refused, Runs, Outcome-bind, Runs-statement, Outcome-pure, Outcome-lift,
  Outcome-weaken,
}
use any_player_sync_server.Accounts.Lookup.{find_sound}
use any_player_sync_server.Handlers.{Headers, authenticate_with_headers}
use any_player_sync_server.Handlers.Authenticated.{authenticate-Outcome}
use any_player_sync_server.Facts.{
  Played, is_event, new_play, insert_play, select_play, play_fact, is_same,
}
use any_player_sync_server.Facts.Requests.{played, valid_event, explain}
use any_player_sync_server.Facts.Lookup.{refuse_unless-Outcome}
use any_player_sync_server.Facts.Contributed.{FactsKept, FactsKept-stable}

module _ (start : World) (user_id fact_id : ℕ) (input : Played) where
  -- The play of the event, which was there or is added behind the others.
  pub data Hears (after : World) : Type 0 where
    before :
        (p : FactPlayRow)
        → Memᴰ p start.fact_plays
        → is_event user_id input.event_id p ≡ true
        → p.fact_id ≡ fact_id
        → FactsKept start after
        → Hears after
    recorded :
        any (is_event user_id input.event_id) start.fact_plays ≡ false
        → any (λ f. f.id == fact_id) start.facts ≡ true
        → after.facts ≡ start.facts
        → after.fact_plays ≡ start.fact_plays ++ new_play user_id fact_id input ∷ []
        → Hears after

  -- After the INSERT: no row, and nothing changed, or one row.
  abbrev Inserts : ℕ → World → Type 0
  Inserts inserted w = ((inserted ≡ 0) × FactsKept start w) ⊎ ((inserted ≡ 1) × Hears w)

  insert_play-Inserts : Runs (FactsKept start) Inserts (insert_play user_id fact_id input)
  unfolding insert_play
  insert_play-Inserts = record {
    at = λ w kept. elim (Bool-cases (any (λ f. f.id == fact_id) w.facts)) [
      | inr e ↦ rw e (answered 0 w (inl (refl, kept)))
      | inl e ↦ elim (Bool-cases (any (is_event user_id input.event_id) w.fact_plays)) [
        | inl e' ↦ rw (e, e') (answered 0 w (inl (refl, kept)))
        | inr e' ↦ elim (Bool-cases (any (λ u. u.id == user_id) w.users)) [
          | inr e'' ↦ rw (e, e', e'') (refused _ w kept)
          | inl e'' ↦
              rw (e, e', e'')
                (answered 1 _ (
                  inr (
                    refl,
                    recorded
                        (subst (λ ps. any (is_event user_id input.event_id) ps ≡ false) kept.plays
                          e')
                        (subst (λ fs. any (λ f. f.id == fact_id) fs ≡ true) kept.facts e) kept.facts
                        (rw kept.plays refl),
                  )))
        ]
      ]
    ];
  }

  -- The row that explains why none was written.
  abbrev Finds : Option ℕ → World → Type 0
  Finds existing w =
      FactsKept start w
      × (is_same fact_id existing ≡ true
          → (p : FactPlayRow) × Memᴰ p start.fact_plays
            × (is_event user_id input.event_id p ≡ true)
            × (p.fact_id ≡ fact_id))

  found-Finds :
      (w : World) (o : Option FactPlayRow)
      → find (is_event user_id input.event_id) w.fact_plays ≡ o
      → FactsKept start w
      → Finds (play_fact o) w
  found-Finds w none e kept = (kept, λ same. absurd (cc))
  found-Finds w (some p) e kept =
      let (listed, event) = find_sound _ w.fact_plays p e in
      (kept, λ same. (p, subst (Memᴰ p) kept.plays listed, event, ground arith))

  select_play-Finds : Runs (FactsKept start) Finds (select_play user_id input.event_id)
  unfolding select_play
  select_play-Finds = record { at = λ w kept. answered _ w (found-Finds w _ refl kept) }

  explain-Hears :
      (inserted : ℕ) (w : World)
      → Inserts inserted w
      → Outcome (FactsKept start) (λ _. Hears) (explain user_id fact_id input inserted w)
  unfolding explain
  explain-Hears inserted w (inr (one, heard)) = rw one (Outcome-pure tt w heard)
  explain-Hears inserted w (inl (zero_rows, kept)) = rw zero_rows (
      Outcome-bind _ _ w ((Runs-statement _ _ (FactsKept-stable start) select_play-Finds).at w kept)
        λ existing at' (kept', finds) _.
          Outcome-weaken _ (λ after k. k)
            (λ _ after (k, same).
              let (p, listed, event, of_fact) = finds same in before p listed event of_fact k)
            (Outcome-lift _ at' (refuse_unless-Outcome (is_same fact_id existing) _ at' kept')))

module _ (hash_token : Text → Text) (headers : Headers) (id : ℤ) (input : Played) (w : World) where
  pub record IsHeard (after : World) : Type 0 where
    pub user : AuthenticatedUser
    pub session : (authenticate_with_headers hash_token headers w).0 ≡ ok user
    pub valid : valid_event id input w.clock ≡ true
    pub hears : Hears w user.id (pos_part id) input after

  sender :
      Outcome
        (FactsKept w)
        (λ user after. FactsKept w after × (after.clock ≡ w.clock))
        (authenticate_with_headers hash_token headers w)
  sender =
      Outcome-weaken _ (λ _ t. record { facts = t.facts; plays = t.fact_plays })
        (λ _ after t. (record { facts = t.facts; plays = t.fact_plays }, t.clock))
        (authenticate-Outcome hash_token headers w)

  reads_clock :
      (after : World)
      → FactsKept w after
      → after.clock ≡ w.clock
      → Outcome (FactsKept w) (λ time at'. FactsKept w at' × (time ≡ w.clock)) (now after)
  unfolding now
  reads_clock after kept clock = answered after.clock after (kept, clock)

  -- Whatever statement fails: the report of a play never panics, and one that is refused leaves the
  -- facts and the plays as they were. One that is answered was valid, and the play of the event by
  -- the sender and of the fact was there, with nothing changed, or is added behind the others; it
  -- is added only if the fact is there and the sender has not reported the event.
  pub played_hears : Outcome (FactsKept w) (λ _. IsHeard) (played hash_token headers id input w)
  unfolding played
  played_hears = Outcome-bind _ _ w sender λ user after (kept, clock) session.
      Outcome-bind _ _ after (reads_clock after kept clock) λ time at0 (kept0, same) _.
        Outcome-bind _ _ at0
          (Outcome-lift _ at0 (refuse_unless-Outcome (valid_event id input time) _ at0 kept0))
          λ _ at1 (kept1, valid) _.
            Outcome-bind _ _ at1
              ((Runs-statement _ _ (FactsKept-stable w)
                  (insert_play-Inserts w user.id (pos_part id) input)).at
                at1 kept1)
              λ inserted at2 inserts _.
                Outcome-weaken _ (λ _ k. k)
                  (λ _ done hears. record {
                    user = user;
                    session = session;
                    valid = subst (λ t. valid_event id input t ≡ true) same valid;
                    hears = hears;
                  })
                  (explain-Hears w user.id (pos_part id) input inserted at2 inserts)
