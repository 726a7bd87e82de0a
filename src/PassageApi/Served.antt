-- ===== src/PassageApi/Served.antt =====
-- What GET of passages answers (src/passages/api.rs, `lookup`).
use any_player_sync_server.Prelude.{
  ℕ, ◌≡◌, ◌≢◌, refl, sym, subst, ap, ◌∙◌, Bool, true, Option, none, some, List, [], ◌∷◌, Text, ◌==◌,
  find, All, arith,
}
use mathlib.Core.List.{Memᴰ}
use any_player_sync_server.Prelude.Kept.{All-listed}
use any_player_sync_server.World.{World}
use any_player_sync_server.World.Rows.{DjDocumentRow, DjChunkRow}
use any_player_sync_server.World.Keeps.{IsStable}
use any_player_sync_server.MatchKeys.{Unicode}
use any_player_sync_server.Rank.{
  Floats, Candidate, Selection, chosen, all_excluded, empty, chunk_ids, recovery,
}
use any_player_sync_server.Rank.Outcome.{IsEligible, Promises}
use any_player_sync_server.Store.Queries.{last_played, to_candidate}
use any_player_sync_server.Store.Joined.{IsJoined, find-listed}
use any_player_sync_server.PassageApi.{Passage}
use any_player_sync_server.PassageApi.Requests.{passages_of, respond, to_passage, push_passage}

-- The passages, their plays and the clock are as at the start.
pub record SamePassages (w v : World) : Type 0 where
  pub documents : v.dj_documents ≡ w.dj_documents
  pub chunks : v.dj_chunks ≡ w.dj_chunks
  pub plays : v.passage_plays ≡ w.passage_plays
  pub clock : v.clock ≡ w.clock

pub SamePassages-stable : (w : World) → IsStable (SamePassages w)
SamePassages-stable w = record {
  faults = λ v rest h. record {
    documents = h.documents;
    chunks = h.chunks;
    plays = h.plays;
    clock = h.clock;
  };
}

module _ (f : Floats) (of_bits : ℕ → f.F32) (passes : DjDocumentRow → Bool) (user_id : ℕ)
    (w : World) where
  -- A stored chunk of a document that passes, which the user did not play within its window.
  pub record IsServed (p : Passage) : Type 0 where
    pub chunk : DjChunkRow
    pub document : DjDocumentRow
    pub listed : Memᴰ chunk w.dj_chunks
    pub stored : Memᴰ document w.dj_documents
    pub owner : document.id ≡ chunk.document_id
    pub passing : passes document ≡ true
    pub rested : recovery f (last_played user_id chunk.id w.passage_plays) w.clock ≢ none
    pub same : p ≡ to_passage f (to_candidate f of_bits user_id w.passage_plays chunk document)

  abbrev pub Joined : Candidate f → Type 0
  Joined = IsJoined f of_bits passes user_id w.passage_plays w.dj_documents w.dj_chunks

  -- When it was last played depends on the id of the chunk only.
  played_at :
      (c : Candidate f) → Joined c → c.last_played ≡ last_played user_id c.chunk_id w.passage_plays
  played_at c j = rw j.same refl

  served :
      (c : Candidate f)
      → Joined c
      → recovery f c.last_played w.clock ≢ none
      → IsServed (to_passage f c)
  served c j r = record {
    chunk = j.chunk;
    document = j.document;
    listed = j.listed;
    stored = j.stored;
    owner = ground (arith, j.owner);
    passing = j.passing;
    rested = subst (λ d. recovery f d.last_played w.clock ≢ none) j.same r;
    same = rw j.same refl;
  }

  passages_of-IsServed :
      (unicode : Unicode) (query : List f.F32) (key : Text) (cs picked : List (Candidate f))
      → All Joined cs
      → All (IsEligible f unicode query key w.clock cs) picked
      → All IsServed (passages_of f cs (chunk_ids f picked))
  unfolding passages_of
  passages_of-IsServed unicode query key cs [] h k = tt
  passages_of-IsServed unicode query key cs (c ∷ picked) h (e, k) =
      found (find (λ d. d.chunk_id == c.chunk_id) cs) refl
        (passages_of-IsServed unicode query key cs picked h k)
    where
      found :
          (o : Option (Candidate f))
          → find (λ d. d.chunk_id == c.chunk_id) cs ≡ o
          → All IsServed (passages_of f cs (chunk_ids f picked))
          → All IsServed (push_passage f o (passages_of f cs (chunk_ids f picked)))
      found none e' rest = rest
      found (some d) e' rest =
          let (listed, here) = find-listed (λ x. x.chunk_id == c.chunk_id) cs d e' in
          let j = All-listed Joined d cs listed h in
          let at : c.last_played ≡ d.last_played =
            played_at c (All-listed Joined c cs e.listed h)
            ∙ ap (λ n. last_played user_id n w.passage_plays) (ground (arith, here))
            ∙ sym (played_at d j) in
          (served d j (subst (λ o. recovery f o w.clock ≢ none) at e.rested), rest)

  pub respond-IsServed :
      (unicode : Unicode) (query : List f.F32) (key : Text) (budget : ℕ) (cs : List (Candidate f))
      (s : Selection)
      → All Joined cs
      → Promises f unicode query key w.clock budget cs s
      → All IsServed (respond f cs s).passages
  respond-IsServed unicode query key budget cs empty h p = tt
  respond-IsServed unicode query key budget cs all_excluded h p = tt
  respond-IsServed unicode query key budget cs (chosen ids) h (picked, same, _, _, eligible) =
      rw same (passages_of-IsServed unicode query key cs picked h eligible)
