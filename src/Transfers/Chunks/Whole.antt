-- ===== src/Transfers/Chunks/Whole.antt =====
-- A chunked upload of fruitsalade/webapp/js/transfers.js from its start: the server gets the file.
use fruit_salade.Base.{
  ℕ, zero, suc, ◌+◌, ◌-◌, ◌*◌, ◌≤◌, ◌≡◌, refl, ap, ◌∙◌, some, List, [], ◌∷◌, ◌++◌, arith, ==_refl,
  length,
}
use fruit_salade.Transfers.Model.{uploading, File, Saved, Request, put_chunk, post_complete, State}
use fruit_salade.Transfers.Store.{status_of, file_of}
use fruit_salade.Transfers.Upload.{start_clock, send_next_chunk, upload_chunks}
use fruit_salade.Transfers.Replies.{ok, InitData, init_answered, learn_init, begin_upload}
use fruit_salade.Transfers.Chunks.Missing.{missing}
use fruit_salade.Transfers.Chunks.Bytes.{chunk_of, joined, joined_all}
use fruit_salade.Transfers.Chunks.Serve.{puts_of, serve, serve-send_next_chunk}

-- The bytes of the chunks among some requests, in the order in which they were sent.
abbrev pub received : List Request → List ℕ
received [] = []
received (put_chunk id u n blob ∷ qs) = blob ++ received qs
received (q ∷ qs) = received qs

-- With nothing completed, no index is left out.
received-puts_of :
    (id k from : ℕ) (t : Saved) (bytes : List ℕ)
    → t.file_size ≡ length bytes
    → received (puts_of id t bytes (missing k from [])) ≡ joined t.chunk_size k from bytes
unfolding joined
received-puts_of id zero from t bytes e = refl
received-puts_of id (suc k) from t bytes e = rw e (
    ap (chunk_of t.chunk_size (length bytes) bytes from ++◌)
      (received-puts_of id k (from + 1) t bytes e))

length-puts_of :
    (id k from : ℕ) (t : Saved) (bytes : List ℕ)
    → length (puts_of id t bytes (missing k from [])) ≡ k
length-puts_of id zero from t bytes = refl
length-puts_of id (suc k) from t bytes = ap suc (length-puts_of id k (from + 1) t bytes)

module _ (id : ℕ) (file : File) (d : InitData) (s : State) where
  -- The record once the answer of the server is noted.
  noted : Saved
  noted = record (s.heap id).saved {
    upload_id = d.upload_id;
    chunk_size = d.chunk_size;
    total_chunks = d.total_chunks;
    completed_chunks = [];
    loaded = 0 * d.chunk_size;
  }

  begun : State
  begun = start_clock id (learn_init id d s)

  begun-saved : (begun.heap id).saved ≡ noted
  unfolding begun noted start_clock learn_init
  begun-saved = rw (==_refl id) refl

  begun-file : file_of begun id ≡ file_of s id
  unfolding begun start_clock learn_init
  begun-file = ground (arith, ==_refl id)

  init_answered-begun :
      file_of s id ≡ some file → init_answered id (ok d) s ≡ send_next_chunk id 0 begun
  unfolding init_answered begin_upload upload_chunks begun
  init_answered-begun f = rw (same_file ∙ f, upload_chunks) refl
    where
      same_file : file_of (learn_init id d s) id ≡ file_of s id
      same_file = unfold learn_init in ground (arith, ==_refl id)

-- When a server that accepts every chunk has answered the request to begin with chunks enough for
-- the file, then the transfer, still uploading and with the file whose size it records, has it put
-- every chunk in order, whose bytes joined are the file's, and then asks it to finish.
pub serve-init_answered :
    (id : ℕ) (file : File) (d : InitData) (s : State)
    → status_of s id ≡ uploading
    → file_of s id ≡ some file
    → (s.heap id).saved.file_size ≡ length file.bytes
    → length file.bytes ≤ d.total_chunks * d.chunk_size
    → (puts : List Request) × ((serve d.total_chunks id (init_answered id (ok d) s)).requests
        ≡ s.requests ++ (puts ++ post_complete id d.upload_id ∷ []))
      × (received puts ≡ file.bytes)
      × (length puts ≡ d.total_chunks)
unfolding begun noted start_clock learn_init
serve-init_answered id file d s up f size enough =
    let b = begun id file d s in
    let t : Saved = noted id file d s in
    let e = begun-saved id file d s in
    let puts = puts_of id t file.bytes (missing d.total_chunks 0 []) in
    let h =
      serve-send_next_chunk 0 d.total_chunks id file b (ap (λ r. r.status) e ∙ up)
        (begun-file id file d s ∙ f) (omega arith) (rw e (omega arith)) in
    let none_skipped : d.total_chunks - 0 ≡ d.total_chunks = omega arith in
    let sent = rw (e, none_skipped) at h.0 in
    (
      puts,
      rw (init_answered-begun id file d s f) (sent ∙ refl),
      received-puts_of id d.total_chunks 0 t file.bytes size
          ∙ joined_all d.chunk_size d.total_chunks file.bytes enough,
      length-puts_of id d.total_chunks 0 t file.bytes,
    )
