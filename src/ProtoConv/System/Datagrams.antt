-- ===== src/ProtoConv/System/Datagrams.antt =====
-- src/ProtoConv/ProtoConv.cpp with a delimiter: datagrams from a stream to datagrams.
use mini_plex.Base.{
  ℕ, suc, ◌+◌, ◌-◌, ◌≤◌, ◌<◌, ◌%◌, ◌^◌, ◌≡◌, ◌≢◌, refl, sym, ap, ◌∙◌, inl, inr, true, List, [], ◌∷◌,
  ◌++◌, map, length, ◌==◌, Bool-cases, append_nil, length-append, arith,
}
use mini_plex.Base.Every.{Every}
use mini_plex.ProtoConv.{frame}
use mini_plex.ProtoConv.Delim.{
  add_delim, delim_bytes, delim_checker, check_frame, check_frame_stable, check_frame-add_delim,
  len-check_frame-le, HasNoTrailer,
}
use mini_plex.ProtoConv.Reorder.{strip, is_framed}
use mini_plex.ProtoConv.Reorder.Sequence.{IsRun}
use mini_plex.ProtoConv.Stream.Reads.{Sent, IsFound, AllFound, delivered, take_all}
use mini_plex.ProtoConv.Through.{datagram}
use mini_plex.ProtoConv.Wire.{AllClean, add_delim-unfolded, length-sent}

-- A datagram as `RcvUDPHandler` puts it on the stream.
abbrev pub sent_datagram : ℕ → ℕ → List ℕ → Sent
sent_datagram delim seq d = record {
  bytes = (add_delim delim seq d).1;
  found = frame (10 + length d) true true 1 seq;
}

-- Datagrams one after the other, from a value of `DelimSeq` on.
unfoldable pub sent_datagrams : ℕ → ℕ → List (List ℕ) → List Sent
sent_datagrams delim seq [] = []
sent_datagrams delim seq (d ∷ ds) =
    sent_datagram delim seq d ∷ sent_datagrams delim (add_delim delim seq d).0 ds

module _ (delim : ℕ) (nz : delim ≢ 0) where
  length-bytes : (seq : ℕ) (d : List ℕ) → length (add_delim delim seq d).1 ≡ 10 + length d
  length-bytes seq d = rw (add_delim-unfolded delim seq d nz) (length-sent delim seq d)

  sent_datagram-IsFound :
      (seq : ℕ) (d : List ℕ)
      → seq < 2 ^ 32
      → length d ≤ 65526
      → HasNoTrailer delim (delim_bytes delim seq) d
      → IsFound (delim_checker delim) (sent_datagram delim seq d)
  sent_datagram-IsFound seq d h l v =
      let bytes = (add_delim delim seq d).1 in
      let whole = λ (rest : List ℕ). check_frame-add_delim delim seq d rest nz h l v in
      record {
        whole = whole;
        part = λ p more e long. elim (Bool-cases ((check_frame delim p).len == 0)) [
          | inl n ↦ ground (arith, n)
          | inr n ↦
              let same = check_frame_stable delim p more (ground (arith, n)) in
              let found : check_frame delim p ≡ frame (10 + length d) true true 1 seq =
                sym same ∙ ap (check_frame delim) (e ∙ sym (append_nil bytes)) ∙ whole [] in
              absurd (
                omega (
                  arith,
                  ap (λ f. f.len) found,
                  len-check_frame-le delim p,
                  ap length e,
                  length-append p more,
                  length-bytes seq d,
                  long,
                ))
        ];
        size = sym (length-bytes seq d);
        filled = omega (arith, length-bytes seq d);
      }

  next_seq : (seq : ℕ) (d : List ℕ) → (add_delim delim seq d).0 ≡ (seq + 1) % 2 ^ 32
  next_seq seq d = ap (λ r. r.0) (add_delim-unfolded delim seq d nz)

  pub sent_datagrams-AllFound :
      (seq : ℕ) (ds : List (List ℕ))
      → seq < 2 ^ 32
      → AllClean delim seq ds
      → AllFound (delim_checker delim) (sent_datagrams delim seq ds)
  unfolding Every sent_datagrams AllClean
  sent_datagrams-AllFound seq [] h v = tt
  sent_datagrams-AllFound seq (d ∷ ds) h (l, t, v) = (
    sent_datagram-IsFound seq d h l t,
    rw (next_seq seq d) (sent_datagrams-AllFound ((seq + 1) % 2 ^ 32) ds (omega arith) v),
  )

  -- The number after the last.
  pub after_all : ℕ → List (List ℕ) → ℕ
  after_all seq [] = seq
  after_all seq (d ∷ ds) = after_all ((seq + 1) % 2 ^ 32) ds

  pub sent_datagrams-IsRun :
      (seq : ℕ) (ds : List (List ℕ))
      → IsRun seq (map delivered (sent_datagrams delim seq ds)) (after_all seq ds)
  unfolding sent_datagrams IsRun after_all
  sent_datagrams-IsRun seq [] = refl
  sent_datagrams-IsRun seq (d ∷ ds) =
      (refl, rw (next_seq seq d) (sent_datagrams-IsRun ((seq + 1) % 2 ^ 32) ds))

  datagram-strip :
      (seq : ℕ) (d : List ℕ) → datagram (strip (delivered (sent_datagram delim seq d))) ≡ d
  datagram-strip seq d = rw (add_delim-unfolded delim seq d nz) (
      (take_all d (delim_bytes delim seq) (length (d ++ delim_bytes delim seq) - 10)
        (omega (arith, length-sent delim seq d))).0)

  pub sent_datagrams-datagram :
      (seq : ℕ) (ds : List (List ℕ))
      → map datagram (map strip (map delivered (sent_datagrams delim seq ds))) ≡ ds
  unfolding sent_datagrams
  sent_datagrams-datagram seq [] = refl
  sent_datagrams-datagram seq (d ∷ ds) =
      ap
        (λ b.
          b
          ∷ map datagram
              (map strip (map delivered (sent_datagrams delim (add_delim delim seq d).0 ds))))
        (datagram-strip seq d)
      ∙ ap (λ t. d ∷ t) (sent_datagrams-datagram (add_delim delim seq d).0 ds)

  -- A frame that goes through the queue.
  abbrev pub IsQueued : Sent → Type 0
  IsQueued s = is_framed (delivered s) ≡ true

  pub sent_datagrams-IsQueued :
      (seq : ℕ) (ds : List (List ℕ)) → Every IsQueued (sent_datagrams delim seq ds)
  unfolding sent_datagrams Every
  sent_datagrams-IsQueued seq [] = tt
  sent_datagrams-IsQueued seq (d ∷ ds) =
      (ground (arith, length-bytes seq d), sent_datagrams-IsQueued (add_delim delim seq d).0 ds)

  pub length-sent_datagrams :
      (seq : ℕ) (ds : List (List ℕ))
      → length (map delivered (sent_datagrams delim seq ds)) ≡ length ds
  unfolding sent_datagrams
  length-sent_datagrams seq [] = refl
  length-sent_datagrams seq (d ∷ ds) = ap suc (length-sent_datagrams (add_delim delim seq d).0 ds)
