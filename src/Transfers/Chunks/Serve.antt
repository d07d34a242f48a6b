-- ===== src/Transfers/Chunks/Serve.antt =====
-- A chunked upload of fruitsalade/webapp/js/transfers.js against a server that accepts each chunk.
use fruit_salade.Base.{
  ℕ, zero, suc, ◌+◌, ◌-◌, ◌≤◌, ◌≡◌, refl, sym, ap, ◌∙◌, inl, inr, true, false, Option, none, some,
  List, [], ◌∷◌, ◌++◌, append_assoc, append-nil, arith, ==_refl, Bool-cases, contains,
}
use fruit_salade.Transfers.Model.{uploading, File, Saved, Request, put_chunk, post_complete, State}
use fruit_salade.Transfers.Store.{status_of, file_of, set_active, render_panel}
use fruit_salade.Transfers.Upload.{
  put_next, next_missing_in, next_missing, finalize_chunked, send_next_chunk,
}
use fruit_salade.Transfers.Replies.{chunk_loaded, record_chunk, accept_chunk}
use fruit_salade.Transfers.Chunks.Missing.{missing, missing-below}
use fruit_salade.Transfers.Chunks.Bytes.{chunk_of}

-- The chunk that was sent last, if a chunk was.
abbrev chunk_index : Request → Option ℕ
chunk_index (put_chunk id u n blob) = some n
chunk_index _ = none

abbrev last_chunk : Option ℕ → List Request → Option ℕ
last_chunk r [] = r
last_chunk r (q ∷ qs) = last_chunk (chunk_index q) qs

-- The server answers each chunk with success, as long as one is outstanding.
pub serve : ℕ → ℕ → State → State
serve zero id s = s
serve (suc fuel) id s = elim (last_chunk none s.requests) [
  | none ↦ s
  | some n ↦ serve fuel id (chunk_loaded id n 200 s)
]

last_chunk-snoc :
    (r : Option ℕ) (qs : List Request) (q : Request) → last_chunk r (qs ++ q ∷ []) ≡ chunk_index q
last_chunk-snoc r [] q = refl
last_chunk-snoc r (p ∷ qs) q = last_chunk-snoc (chunk_index p) qs q

-- The requests for some chunks of a transfer.
abbrev pub puts_of : ℕ → Saved → List ℕ → List ℕ → List Request
puts_of id t bytes [] = []
puts_of id t bytes (n ∷ ns) =
    put_chunk id t.upload_id n (chunk_of t.chunk_size t.file_size bytes n) ∷ puts_of id t bytes ns

-- They do not depend on the chunks that are completed.
puts_of-completed :
    (id : ℕ) (t : Saved) (bytes ns done : List ℕ)
    → puts_of id (record t { completed_chunks = done }) bytes ns ≡ puts_of id t bytes ns
puts_of-completed id t bytes [] done = refl
puts_of-completed id t bytes (n ∷ ns) done =
    ap (put_chunk id t.upload_id n (chunk_of t.chunk_size t.file_size bytes n) ∷◌)
      (puts_of-completed id t bytes ns done)

-- What `serve` is to send and to record, when the indices from `from` on are `k` many.
record Served (k from id : ℕ) (bytes : List ℕ) (s t : State) : Type 0 where
  pub sent :
      t.requests
      ≡ s.requests
        ++ (puts_of id (s.heap id).saved bytes (missing k from (s.heap id).saved.completed_chunks)
            ++ post_complete id (s.heap id).saved.upload_id ∷ [])
  pub recorded :
      (t.heap id).saved.completed_chunks
      ≡ (s.heap id).saved.completed_chunks ++ missing k from (s.heap id).saved.completed_chunks

module _ (id : ℕ) (file : File) (s : State) where
  -- The state after the answer to chunk `n`.
  answered : ℕ → State
  answered n = record_chunk id n (set_active none (put_next id file n s))

  answered-object :
      (n : ℕ)
      → (answered n).heap id ≡ record (s.heap id) {
        saved = record (s.heap id).saved {
          completed_chunks = (s.heap id).saved.completed_chunks ++ n ∷ [];
        };
      }
  unfolding answered record_chunk put_next render_panel
  answered-object n = rw (==_refl id) refl

  answered-requests :
      (n : ℕ)
      → (answered n).requests ≡ s.requests ++ puts_of id (s.heap id).saved file.bytes (n ∷ [])
  unfolding answered record_chunk put_next render_panel
  answered-requests n = refl

  serve-put :
      (fuel n : ℕ)
      → serve (suc fuel) id (put_next id file n s)
        ≡ serve fuel id (send_next_chunk id (n + 1) (answered n))
  unfolding serve put_next chunk_loaded accept_chunk answered
  serve-put fuel n = rw (last_chunk-snoc, serve)

  serve-finalize : (fuel : ℕ) → serve fuel id (finalize_chunked id s) ≡ finalize_chunked id s
  unfolding serve finalize_chunked
  serve-finalize zero = refl
  serve-finalize (suc fuel) = rw (last_chunk-snoc, serve)

  module _ (up : status_of s id ≡ uploading) (f : file_of s id ≡ some file) where
    -- The three ways on from an index.
    send-finalize :
        (from : ℕ)
        → (s.heap id).saved.total_chunks ≡ from + 0
        → send_next_chunk id from s ≡ finalize_chunked id s
    unfolding send_next_chunk next_missing next_missing_in
    send-finalize from total =
        let none_left : (s.heap id).saved.total_chunks - from ≡ 0 = omega arith in
        ground (arith, up, none_left)

    send-skip :
        (from k : ℕ)
        → (s.heap id).saved.total_chunks ≡ from + suc k
        → contains (s.heap id).saved.completed_chunks from ≡ true
        → send_next_chunk id from s ≡ send_next_chunk id (from + 1) s
    unfolding send_next_chunk next_missing next_missing_in
    send-skip from k total c =
        let left : (s.heap id).saved.total_chunks - from ≡ suc k = omega arith in
        let later : (s.heap id).saved.total_chunks - (from + 1) ≡ k = omega arith in
        ground (arith, up, left, later)

    send-put :
        (from k : ℕ)
        → (s.heap id).saved.total_chunks ≡ from + suc k
        → contains (s.heap id).saved.completed_chunks from ≡ false
        → send_next_chunk id from s ≡ put_next id file from s
    unfolding send_next_chunk next_missing next_missing_in
    send-put from k total c =
        let left : (s.heap id).saved.total_chunks - from ≡ suc k = omega arith in
        ground (arith, up, left, f)

Served-skip :
    (k from id : ℕ) (bytes : List ℕ) (s t : State)
    → contains (s.heap id).saved.completed_chunks from ≡ true
    → Served k (from + 1) id bytes s t
    → Served (suc k) from id bytes s t
Served-skip k from id bytes s t c h = record { sent = rw c h.sent; recorded = rw c h.recorded }

Served-put :
    (k from id : ℕ) (file : File) (s t : State)
    → contains (s.heap id).saved.completed_chunks from ≡ false
    → Served k (from + 1) id file.bytes (answered id file s from) t
    → Served (suc k) from id file.bytes s t
Served-put k from id file s t c h = record {
  sent =
      h.sent
      ∙ rw
          (
            answered-object id file s from,
            answered-requests id file s from,
            missing-below k (from + 1) from (s.heap id).saved.completed_chunks (omega arith),
            puts_of-completed id (s.heap id).saved file.bytes
                (missing k (from + 1) (s.heap id).saved.completed_chunks)
                ((s.heap id).saved.completed_chunks ++ from ∷ []),
            c,
          )
          (append_assoc s.requests _ _);
  recorded =
      h.recorded
      ∙ rw
          (
            answered-object id file s from,
            missing-below k (from + 1) from (s.heap id).saved.completed_chunks (omega arith),
            c,
          )
          (append_assoc (s.heap id).saved.completed_chunks _ _);
}

serve-Served :
    (k from fuel id : ℕ) (file : File) (s : State)
    → status_of s id ≡ uploading
    → file_of s id ≡ some file
    → (s.heap id).saved.total_chunks ≡ from + k
    → k ≤ fuel
    → Served k from id file.bytes s (serve fuel id (send_next_chunk id from s))
serve-Served zero from fuel id file s up f total enough =
    rw (send-finalize id file s up f from total, serve-finalize id file s fuel)
      (record {
        sent = unfold finalize_chunked in refl;
        recorded = unfold finalize_chunked in sym (append-nil _);
      })
serve-Served (suc k) from zero id file s up f total enough = absurd (omega arith)
serve-Served (suc k) from (suc fuel) id file s up f total enough =
    elim (Bool-cases (contains (s.heap id).saved.completed_chunks from)) [
      | inl c ↦ rw (send-skip id file s up f from k total c) (
          Served-skip k from id file.bytes s _ c
            (serve-Served k (from + 1) (suc fuel) id file s up f (omega arith) (omega arith)))
      | inr c ↦
          rw (send-put id file s up f from k total c, serve-put id file s fuel from)
            (Served-put k from id file s _ c (
              serve-Served k (from + 1) fuel id file (answered id file s from)
                (ap (λ r. r.saved.status) (answered-object id file s from) ∙ up)
                (ap (λ r. r.file) (answered-object id file s from) ∙ f)
                (ap (λ r. r.saved.total_chunks) (answered-object id file s from)
                  ∙ total
                  ∙ omega arith)
                (omega arith)))
    ]

-- A server that accepts every chunk gets, from the next chunk on, each chunk that is not yet
-- completed once, in ascending order, cut from its place in the file, and then the request to
-- finish; and the record then lists them behind those completed before. As many rounds are enough
-- as there are indices left.
pub serve-send_next_chunk :
    (from fuel id : ℕ) (file : File) (s : State)
    → status_of s id ≡ uploading
    → file_of s id ≡ some file
    → let t = (s.heap id).saved in
      let rest = missing (t.total_chunks - from) from t.completed_chunks in
      let end = serve fuel id (send_next_chunk id from s) in
      from ≤ t.total_chunks
      → t.total_chunks ≤ from + fuel
      → (end.requests
          ≡ s.requests ++ (puts_of id t file.bytes rest ++ post_complete id t.upload_id ∷ []))
        × ((end.heap id).saved.completed_chunks ≡ t.completed_chunks ++ rest)
serve-send_next_chunk from fuel id file s up f low enough =
    let h =
      serve-Served ((s.heap id).saved.total_chunks - from) from fuel id file s up f (omega arith)
        (omega arith) in
    (h.sent, h.recorded)
