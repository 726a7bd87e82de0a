-- ===== src/Channels/Examples.antt =====
-- Two users, with channels that only count their receivers.
use any_player_sync_server.Prelude.{
  ℕ, suc, ◌-◌, ◌≡◌, ◌≢◌, refl, true, some, none, List, [], ◌∷◌, pos, ltb, arith,
}
use any_player_sync_server.Models.{UpdateEvent, settings}
use any_player_sync_server.Sync.{state_updated}
use any_player_sync_server.Channels.{
  Broadcast, Channels, lookup, subscribe_user, send_user_event, Turn, drop_turn, send_turn,
  clean_up_turn, turns,
}
use any_player_sync_server.Channels.Delivery.{
  IsPruned, subscribed_receives, send_user_event-IsPruned,
}

abbrev counters : Broadcast
counters = record {
  Sender = ℕ;
  channel = 0;
  subscribe = suc;
  unsubscribe = λ n. n - 1;
  receiver_count = λ n. n;
  send = λ e n. (ltb 0 n, n);
  channel_count = refl;
  subscribe_count = λ n. refl;
  unsubscribe_count = λ n. refl;
  send_result = λ e n. refl;
  send_count = λ e n. refl;
}

abbrev event : UpdateEvent
event = state_updated settings (pos 1) 5 none

abbrev two_users : Channels counters
two_users = (1, 0) ∷ (2, 1) ∷ []

removes : send_user_event counters 1 event two_users ≡ (2, 1) ∷ []
unfolding send_user_event
removes = refl

-- A connection that opens between the two locks of a call is not lost.
abbrev between : List Turn
between = drop_turn 1 ∷ clean_up_turn 2 ∷ send_turn 2 event ∷ []

abbrev first : ℕ
first = 1

abbrev second : ℕ
second = 2

first_differs : first ≢ second
first_differs e = absurd (omega (arith, e))

subscribed_receives_example :
    (s : ℕ) × (lookup counters 2 (turns counters between (subscribe_user counters 2 two_users))
      ≡ some s)
    × (ltb 0 s ≡ true)
subscribed_receives_example =
    subscribed_receives counters 2 two_users between event (first_differs, (tt, (tt, tt)))

send_user_event-IsPruned_example :
    IsPruned counters 1 two_users (send_user_event counters 1 event two_users)
send_user_event-IsPruned_example = send_user_event-IsPruned counters 1 event two_users
