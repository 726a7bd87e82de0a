-- ===== src/Channels/Delivery.antt =====
-- A connection that is open receives what is sent, whatever the turns of the tasks.
use any_player_sync_server.Prelude.{
  ℕ, ◌<◌, ◌≡◌, ◌≢◌, refl, sym, subst, ap, ◌∙◌, Bool, true, false, not, ◌&&◌, none, some, List, [],
  ◌∷◌, ◌==◌, arith, inl, inr, ◌⊎◌, Bool-cases, Option-cases, All,
}
use any_player_sync_server.Models.{UpdateEvent}
use any_player_sync_server.Channels.{
  Broadcast, Channels, lookup, change, remove, subscribe_user, send_to_channel, clean_up,
  send_user_event, Turn, subscribe_turn, clean_up_turn, drop_turn, send_turn, turn, turns,
}

module _ (b : Broadcast) where
  lookup-change_self :
      (u : ℕ) (f : b.Sender → b.Sender) (map : Channels b)
      → lookup b u (change b u f map) ≡ elim (lookup b u map) [ none ↦ none | some s ↦ some (f s) ]
  unfolding lookup change
  lookup-change_self u f [] = refl
  lookup-change_self u f ((v, s) ∷ rest) = ground (arith, lookup-change_self u f rest)

  lookup-change_ne :
      (u v : ℕ) (f : b.Sender → b.Sender) (map : Channels b)
      → u ≢ v
      → lookup b v (change b u f map) ≡ lookup b v map
  unfolding lookup change
  lookup-change_ne u v f [] ne = refl
  lookup-change_ne u v f ((w, s) ∷ rest) ne = ground (arith, lookup-change_ne u v f rest ne)

  lookup-remove_self : (u : ℕ) (map : Channels b) → lookup b u (remove b u map) ≡ none
  unfolding lookup remove
  lookup-remove_self u [] = refl
  lookup-remove_self u ((v, s) ∷ rest) = ground (arith, lookup-remove_self u rest)

  lookup-remove_ne :
      (u v : ℕ) (map : Channels b) → u ≢ v → lookup b v (remove b u map) ≡ lookup b v map
  unfolding lookup remove
  lookup-remove_ne u v [] ne = refl
  lookup-remove_ne u v ((w, s) ∷ rest) ne = ground (arith, lookup-remove_ne u v rest ne)

  lookup-head :
      (u v : ℕ) (s : b.Sender) (map : Channels b)
      → u ≢ v
      → lookup b v ((u, s) ∷ map) ≡ lookup b v map
  unfolding lookup
  lookup-head u v s map ne = ground arith

  -- The user has a channel, and it has a receiver.
  pub record IsOpen (u : ℕ) (map : Channels b) : Type 0 where
    pub sender : b.Sender
    pub found : lookup b u map ≡ some sender
    pub receivers : 0 < b.receiver_count sender

  IsOpen-same :
      (u : ℕ) (map map' : Channels b)
      → lookup b u map' ≡ lookup b u map
      → IsOpen u map
      → IsOpen u map'
  IsOpen-same u map map' same h = record {
    sender = h.sender;
    found = same ∙ h.found;
    receivers = h.receivers;
  }

  IsOpen-change :
      (u v : ℕ) (f : b.Sender → b.Sender) (map : Channels b)
      → (u ≡ v → (s : b.Sender) → 0 < b.receiver_count s → 0 < b.receiver_count (f s))
      → IsOpen v map
      → IsOpen v (change b u f map)
  IsOpen-change u v f map more h = elim (Bool-cases (u == v)) [
    | inl e ↦ same_user (ground arith)
    | inr e ↦ IsOpen-same v map _ (lookup-change_ne u v f map (λ e'. ground arith)) h
  ]
    where
      same_user : u ≡ v → IsOpen v (change b u f map)
      same_user same = record {
        sender = f h.sender;
        found =
            subst (λ x. lookup b x (change b u f map) ≡ some (f h.sender)) same
              (lookup-change_self u f map
                ∙ ap (λ o. elim o [ none ↦ none | some s ↦ some (f s) ])
                    (subst (λ x. lookup b x map ≡ some h.sender) (sym same) h.found));
        receivers = more same h.sender h.receivers;
      }

  subscribe-IsOpen : (u v : ℕ) (map : Channels b) → IsOpen v map → IsOpen v (subscribe_user b u map)
  unfolding subscribe_user
  subscribe-IsOpen u v map h = elim (Option-cases (lookup b u map)) [
    | inl e ↦ rw e (IsOpen-same v map _ (other e) h)
    | inr (s, e) ↦
        rw e (IsOpen-change u v b.subscribe map (λ _ s more. omega (arith, b.subscribe_count s)) h)
  ]
    where
      none_some : lookup b u map ≡ none → u ≢ v
      none_some e same = let clash = sym e ∙ ap (λ x. lookup b x map) same ∙ h.found in cc

      other : lookup b u map ≡ none → lookup b v ((u, b.subscribe b.channel) ∷ map) ≡ lookup b v map
      other e = lookup-head u v (b.subscribe b.channel) map (none_some e)

  send-IsOpen :
      (u v : ℕ) (event : UpdateEvent) (map : Channels b)
      → IsOpen v map
      → IsOpen v (send_to_channel b u event map).1
  unfolding send_to_channel
  send-IsOpen u v event map h = elim (Option-cases (lookup b u map)) [
    | inl e ↦ rw e h
    | inr (s, e) ↦ rw e (
        IsOpen-change u v (λ t. (b.send event t).1) map
          (λ _ s more. omega (arith, b.send_count event s, more)) h)
  ]

  -- The second look under the write lock: a channel that has a receiver is not removed.
  clean_up-IsOpen : (u v : ℕ) (map : Channels b) → IsOpen v map → IsOpen v (clean_up b u map)
  unfolding clean_up
  clean_up-IsOpen u v map h = elim (Option-cases (lookup b u map)) [
    | inl e ↦ rw e h
    | inr (s, e) ↦ elim (Bool-cases (b.receiver_count s == 0)) [
      | inl e' ↦ rw (e, e') (IsOpen-same v map _ (lookup-remove_ne u v map (other s e e')) h)
      | inr e' ↦ rw (e, e') h
    ]
  ]
    where
      other : (s : b.Sender) → lookup b u map ≡ some s → b.receiver_count s == 0 ≡ true → u ≢ v
      other s e none_left same =
          let found = sym e ∙ ap (λ x. lookup b x map) same ∙ h.found in
          ground (arith, none_left, h.receivers, found)

  -- No connection of the user ends in this turn.
  abbrev pub Spares : ℕ → Turn → Type 0
  Spares v (drop_turn u) = u ≢ v
  Spares v _ = Unit

  turn-IsOpen :
      (v : ℕ) (t : Turn) (map : Channels b) → Spares v t → IsOpen v map → IsOpen v (turn b t map)
  unfolding turn
  turn-IsOpen v (subscribe_turn u) map spares h = subscribe-IsOpen u v map h
  turn-IsOpen v (clean_up_turn u) map spares h = clean_up-IsOpen u v map h
  turn-IsOpen v (drop_turn u) map spares h =
      IsOpen-change u v b.unsubscribe map (λ same. absurd (spares same)) h
  turn-IsOpen v (send_turn u event) map spares h = send-IsOpen u v event map h

  turns-IsOpen :
      (v : ℕ) (ts : List Turn) (map : Channels b)
      → All (Spares v) ts
      → IsOpen v map
      → IsOpen v (turns b ts map)
  turns-IsOpen v [] map spares h = h
  turns-IsOpen v (t ∷ ts) map (spare, spares) h =
      turns-IsOpen v ts (turn b t map) spares (turn-IsOpen v t map spare h)

  subscribed-IsOpen : (v : ℕ) (map : Channels b) → IsOpen v (subscribe_user b v map)
  unfolding subscribe_user
  subscribed-IsOpen v map = elim (Option-cases (lookup b v map)) [
    | inl e ↦ rw e (record {
      sender = b.subscribe b.channel;
      found = ground arith;
      receivers = omega (arith, b.subscribe_count b.channel);
    })
    | inr (s, e) ↦ rw e (record {
      sender = b.subscribe s;
      found =
          lookup-change_self v b.subscribe map
          ∙ ap (λ o. elim o [ none ↦ none | some s ↦ some (b.subscribe s) ]) e;
      receivers = omega (arith, b.subscribe_count s);
    })
  ]

  -- From a subscription on, whatever the other tasks do under the locks, and as long as no
  -- connection of the user has ended: the user's channel is there and a send to it succeeds.
  pub subscribed_receives :
      (v : ℕ) (map : Channels b) (ts : List Turn) (event : UpdateEvent)
      → All (Spares v) ts
      → let later = turns b ts (subscribe_user b v map) in
        (s : b.Sender) × (lookup b v later ≡ some s) × ((b.send event s).0 ≡ true)
  subscribed_receives v map ts event spares =
      let open_later =
        turns-IsOpen v ts (subscribe_user b v map) spares (subscribed-IsOpen v map) in
      (
        open_later.sender,
        open_later.found,
        b.send_result event open_later.sender ∙ ground (arith, open_later.receivers),
      )

  -- The entry of the user after a call that nothing interrupts.
  pub record IsPruned (u : ℕ) (before after : Channels b) : Type 0 where
    pub own : IsOpen u after ⊎ (lookup b u after ≡ none)
    pub others : (v : ℕ) → u ≢ v → lookup b v after ≡ lookup b v before

  sent_entry :
      (u : ℕ) (event : UpdateEvent) (map : Channels b) (s : b.Sender)
      → lookup b u map ≡ some s
      → lookup b u (change b u (λ t. (b.send event t).1) map) ≡ some (b.send event s).1
  sent_entry u event map s found =
      lookup-change_self u (λ t. (b.send event t).1) map
      ∙ ap (λ o. elim o [ none ↦ none | some t ↦ some (b.send event t).1 ]) found

  is_stale : UpdateEvent → b.Sender → Bool
  is_stale event s = not (b.send event s).0 && b.receiver_count (b.send event s).1 == 0

  -- A call of send_user_event leaves no entry without a receiver for the user, and the entries of
  -- the other users as they were.
  pub send_user_event-IsPruned :
      (u : ℕ) (event : UpdateEvent) (map : Channels b)
      → IsPruned u map (send_user_event b u event map)
  unfolding send_user_event send_to_channel is_stale
  send_user_event-IsPruned u event map = elim (Option-cases (lookup b u map)) [
    | inl e ↦ rw e (record { own = inr e; others = λ v ne. refl })
    | inr (s, e) ↦ elim (Bool-cases (is_stale event s)) [
      | inl stale ↦
          rw (e, stale, sent_entry u event map s e, none_left s stale)
            (record {
              own = inr (lookup-remove_self u _);
              others = λ v ne. lookup-remove_ne u v _ ne ∙ lookup-change_ne u v _ map ne;
            })
      | inr kept ↦
          rw (e, kept)
            (record {
              own = inl (record {
                sender = (b.send event s).1;
                found = sent_entry u event map s e;
                receivers = some_left s kept;
              });
              others = λ v ne. lookup-change_ne u v _ map ne;
            })
    ]
  ]
    where
      none_left :
          (s : b.Sender) → is_stale event s ≡ true → b.receiver_count (b.send event s).1 == 0 ≡ true
      none_left s stale = ground arith

      some_left :
          (s : b.Sender) → is_stale event s ≡ false → 0 < b.receiver_count (b.send event s).1
      some_left s kept = ground (arith, b.send_result event s, b.send_count event s)
