-- ===== src/PassageApi/Ingest.antt =====
-- What a request to collect tracks leaves in the queue (src/passages/api.rs, `admin_ingest`).
use any_player_sync_server.Prelude.{
  ℕ, suc, ◌+◌, ◌≡◌, inl, inr, refl, ◌∙◌, Bool, true, false, ◌||◌, Option, none, some, List, [], ◌∷◌,
  ◌++◌, Text, text_eq_refl, All, any, keep, length, map, update_where, arith, Bool-cases,
  if◌then◌else◌,
}
use any_player_sync_server.Errors.{ok, err, forbidden, plain}
use any_player_sync_server.Models.{AuthenticatedUser}
use any_player_sync_server.World.{World}
use any_player_sync_server.World.Keeps.{IsStable}
use any_player_sync_server.World.Runs.{
  Outcome, answered, refused, Runs, Outcome-bind, Outcome-pure, Outcome-lift, Outcome-weaken,
}
use any_player_sync_server.MatchKeys.{Unicode}
use any_player_sync_server.Handlers.{Headers, authenticate_with_headers, require_admin}
use any_player_sync_server.Handlers.Authenticated.{authenticate-Outcome}
use any_player_sync_server.Jobs.{
  TrackRequest, Keys, Enqueue, newly_queued, already_queued, recently_done, enqueue, insert_job,
  new_job, requeue, requeued, is_requeued, job_keys, has_keys, is_listed,
}
use any_player_sync_server.Jobs.Insertion.{enqueue-Outcome}
use any_player_sync_server.Store.{Embed}
use any_player_sync_server.PassageApi.{IngestResponse, engine}
use any_player_sync_server.PassageApi.Quota.{or_db_error-Outcome}
use any_player_sync_server.PassageApi.Admin.{
  is_valid_track, counted, zero_counts, admin, ingest_tracks, admin_ingest,
}

abbrev Queued : World → Keys → Type 0
Queued w k = any (has_keys k) w.jobs ≡ true

-- There is a job with each of the keys.
pub record HasJobs (ks : List Keys) (w : World) : Type 0 where
  pub queued : All (Queued w) ks

HasJobs-stable : (ks : List Keys) → IsStable (HasJobs ks)
HasJobs-stable ks = record { faults = λ w rest h. record { queued = h.queued } }

any-update_where :
    {A : Type 0} (p q : A → Bool) (f : A → A) (xs : List A)
    → ((x : A) → p (f x) ≡ p x)
    → any p (update_where q f xs) ≡ any p xs
any-update_where p q f [] same = refl
any-update_where p q f (x ∷ xs) same = ground (arith, same x, any-update_where p q f xs same)

any-snoc :
    {A : Type 0} (p : A → Bool) (xs : List A) (x : A) → any p (xs ++ x ∷ []) ≡ any p xs || p x
any-snoc p [] x = ground arith
any-snoc p (y ∷ xs) x = ground (arith, any-snoc p xs x)

All-weaken :
    {A : Type 0} (P Q : A → Type 0) (xs : List A) → ((x : A) → P x → Q x) → All P xs → All Q xs
All-weaken P Q [] f h = tt
All-weaken P Q (x ∷ xs) f (p, h) = (f x p, All-weaken P Q xs f h)

new_job-has_keys :
    (id time : ℕ) (k : Keys) (track : TrackRequest) (by : Option ℕ) (auto : Bool)
    → has_keys k (new_job id time k track by auto) ≡ true
unfolding has_keys
new_job-has_keys id time k track by auto =
    ground (arith, text_eq_refl k.song_key, text_eq_refl k.artist_key, text_eq_refl k.album_key)

requeue-HasJobs :
    (ks : List Keys) (k : Keys) (force : Bool)
    → Runs (HasJobs ks) (λ _. HasJobs ks) (requeue k force)
unfolding requeue has_keys
requeue-HasJobs ks k force = record {
  at = λ w h. answered _ _ (record {
    queued =
        All-weaken _ _ ks
          (λ l q.
            any-update_where (has_keys l) (is_requeued k force w.clock) (requeued w.clock) w.jobs
              (λ j. refl)
            ∙ q)
          h.queued;
  });
}

module _ (ks : List Keys) where
  insert-HasJobs :
      (k : Keys) (track : TrackRequest) (by : Option ℕ) (auto : Bool)
      → Runs (HasJobs ks) (λ _. HasJobs (k ∷ ks)) (insert_job k track by auto)
  unfolding insert_job
  insert-HasJobs k track by auto = record {
    at = λ w h. elim (Bool-cases (any (has_keys k) w.jobs)) [
      | inl e ↦ rw e (answered none w (record { queued = (e, h.queued) }))
      | inr e ↦ elim (Bool-cases (is_listed by w)) [
        | inr e' ↦ rw (e, e') (refused _ w h)
        | inl e' ↦
            rw (e, e')
              (answered _ _ (record {
                queued = (
                  ground (
                    arith,
                    any-snoc (has_keys k) w.jobs (new_job w.next_job w.clock k track by auto),
                    new_job-has_keys w.next_job w.clock k track by auto,
                  ),
                  All-weaken _ _ ks
                      (λ l q. ground (
                        arith,
                        q,
                        any-snoc (has_keys l) w.jobs (new_job w.next_job w.clock k track by auto),
                      ))
                      h.queued,
                );
              }))
      ]
    ];
  }

  enqueue-HasJobs :
      (unicode : Unicode) (track : TrackRequest) (by : Option ℕ) (auto force : Bool) (w : World)
      → HasJobs ks w
      → Outcome
          (HasJobs ks)
          (λ _. HasJobs (job_keys unicode track ∷ ks))
          (enqueue unicode track by auto force w)
  enqueue-HasJobs unicode track by auto force w h =
      let k = job_keys unicode track in
      enqueue-Outcome (HasJobs (k ∷ ks)) (HasJobs-stable (k ∷ ks)) k force
        (requeue-HasJobs (k ∷ ks) k force) (HasJobs ks) (HasJobs ks) unicode track by auto w refl
        (HasJobs-stable ks) (λ v g. g) (λ v g. record { queued = g.queued.1 })
        (insert-HasJobs k track by auto) h

abbrev pub sum_of : IngestResponse → ℕ
sum_of out = out.queued + out.already_queued + out.recently_done

counted-sum : (e : Enqueue) (out : IngestResponse) → sum_of (counted e out) ≡ suc (sum_of out)
counted-sum newly_queued out = omega arith
counted-sum already_queued out = omega arith
counted-sum recently_done out = omega arith

abbrev keys_of : Unicode → List TrackRequest → List Keys
keys_of unicode tracks = map (job_keys unicode) tracks

-- All tracks are counted, and there is a job for each of them.
pub record Collects (unicode : Unicode) (tracks : List TrackRequest) (before after : IngestResponse)
    (w : World) : Type 0 where
  pub total : sum_of after ≡ sum_of before + length tracks
  pub jobs : All (λ t. any (has_keys (job_keys unicode t)) w.jobs ≡ true) tracks

module _ (hash_token : Text → Text) (headers : Headers) (unicode : Unicode) where
  ingest_tracks-Collects :
      (user_id : ℕ) (force : Bool) (tracks : List TrackRequest) (ks : List Keys)
      (out : IngestResponse) (w : World)
      → HasJobs ks w
      → Outcome
          (HasJobs ks)
          (λ after v. HasJobs ks v × Collects unicode tracks out after v)
          (ingest_tracks hash_token headers unicode user_id force tracks out w)
  unfolding ingest_tracks
  ingest_tracks-Collects user_id force [] ks out w h =
      Outcome-pure out w (h, record { total = omega arith; jobs = tt })
  ingest_tracks-Collects user_id force (t ∷ ts) ks out w h =
      Outcome-bind _ _ w
        (or_db_error-Outcome "ingest enqueue failed" _ w
          (enqueue-HasJobs ks unicode t (some user_id) false force w h))
        λ outcome after g _.
          Outcome-weaken _ (λ _ k. record { queued = k.queued.1 })
            (λ out' v (k, rest). (
              record { queued = k.queued.1 },
              record {
                total = omega (arith, rest.total, counted-sum outcome out);
                jobs = (k.queued.0, rest.jobs);
              },
            ))
            (ingest_tracks-Collects user_id force ts (job_keys unicode t ∷ ks) (counted outcome out)
              after g)

  pub record IsIngested (tracks : List TrackRequest) (w : World) (out : IngestResponse)
      (after : World) : Type 0 where
    pub user : AuthenticatedUser
    pub session : (authenticate_with_headers hash_token headers w).0 ≡ ok user
    pub is_admin : user.is_admin ≡ true
    pub collects : Collects unicode (keep is_valid_track tracks) zero_counts out after

  gate-Outcome :
      (b : Bool) (w : World)
      → HasJobs [] w
      → Outcome {A = Unit {0}}
          (HasJobs [])
          (λ _ v. HasJobs [] v × (b ≡ true))
          (if b then ok tt else err (forbidden (plain "admin privileges are required")), w)
  gate-Outcome true w h = answered tt w (h, refl)
  gate-Outcome false w h = refused _ w h

  require_admin-Outcome :
      (user : AuthenticatedUser) (w : World)
      → HasJobs [] w
      → Outcome (HasJobs []) (λ _ v. HasJobs [] v × (user.is_admin ≡ true)) (require_admin user, w)
  unfolding require_admin
  require_admin-Outcome user w h = gate-Outcome user.is_admin w h

  -- The sender is an administrator.
  unfoldable IsSender : World → AuthenticatedUser → World → Type 0
  IsSender w user v =
      HasJobs [] v
      × ((authenticate_with_headers hash_token headers w).0 ≡ ok user)
      × (user.is_admin ≡ true)

  admin-Outcome : (w : World) → Outcome (HasJobs []) (IsSender w) (admin hash_token headers w)
  unfolding admin IsSender
  admin-Outcome w =
      Outcome-bind _ _ w
        (Outcome-weaken {R = HasJobs []} _ (λ _ _. record { queued = tt }) (λ _ _ t. t)
          (authenticate-Outcome hash_token headers w))
        λ user at1 _ session.
          Outcome-bind _ _ at1
            (Outcome-lift _ at1 (require_admin-Outcome user at1 (record { queued = tt })))
            λ _ at2 (h, is_admin) _. Outcome-pure user at2 (h, session, is_admin)

  engine-Outcome :
      (passages : Option Embed) (w : World)
      → HasJobs [] w
      → Outcome (HasJobs []) (λ _. HasJobs []) (engine passages, w)
  engine-Outcome none w h = refused _ w h
  engine-Outcome (some e) w h = answered e w h

  -- Whatever statement fails: a request to collect tracks never panics. If it is answered, the
  -- sender is an administrator, the three numbers of the answer add up to the number of the valid
  -- tracks of the request, and there is a job for each of these.
  pub admin_ingest_collects :
      (passages : Option Embed) (tracks : List TrackRequest) (force : Bool) (w : World)
      → Outcome
          (HasJobs [])
          (IsIngested tracks w)
          (admin_ingest hash_token headers unicode passages tracks force w)
  unfolding admin_ingest IsSender
  admin_ingest_collects passages tracks force w =
      Outcome-bind _ _ w (admin-Outcome w) λ user at1 (h1, session, is_admin) _.
        Outcome-bind _ _ at1 (Outcome-lift _ at1 (engine-Outcome passages at1 h1)) λ e at2 h2 _.
          Outcome-weaken _ (λ _ k. k)
            (λ out v (k, collects). record {
              user = user;
              session = session;
              is_admin = is_admin;
              collects = collects;
            })
            (ingest_tracks-Collects user.id force (keep is_valid_track tracks) [] zero_counts at2
              h2)
