-- ===== src/ProtoConv/Reorder/Restoring.antt =====
-- src/ProtoConv/DelimFragHandler.h: what holds while the frames of a run arrive.
use mini_plex.Base.{
  ℕ, suc, ◌+◌, ◌%◌, ◌≤◌, ◌<◌, ◌^◌, ◌≡◌, refl, sym, ap, ◌∙◌, subst, inl, inr, false, not, ◌||◌, List,
  [], ◌∷◌, ◌++◌, map, length, ltb, ◌==◌, append_nil, append_assoc, map-append, length-append,
  Bool-cases, arith,
}
use mini_plex.Base.Every.{Every, Every-append}
use mini_plex.Base.Placing.{
  place, place_all, length-place, length-place_all, Differs-append, Apart, Clear, Clear-place,
  place-append,
}
use mini_plex.ProtoConv.{Frame}
use mini_plex.ProtoConv.Reorder.{DelimFragHandler, drain, strip, handle_frame, handle_all}
use mini_plex.ProtoConv.Reorder.Circular.{offset, IsWithin, emplace-place}
use mini_plex.ProtoConv.Reorder.Conserved.{drain-append}
use mini_plex.ProtoConv.Reorder.InTime.{IsTimely, InTime, release-InTime}
use mini_plex.ProtoConv.Reorder.Runs.{IsRun-append, IsRun-rest, run-Below}
use mini_plex.ProtoConv.Reorder.Sequence.{IsRun, IsBlocked, AllFramed, drain-IsRun, drain-IsBlocked}

-- The times of calls are within the time that a top may wait.
unfoldable pub AllTimely : ℕ → ℕ → List (ℕ × Frame) → Type 0
AllTimely from span [] = Unit
AllTimely from span ((now, f) ∷ fs) = (from ≤ now) × (now ≤ from + span) × AllTimely from span fs

abbrev pub frames_of : List (ℕ × Frame) → List Frame
frames_of [] = []
frames_of ((now, f) ∷ fs) = f ∷ frames_of fs

module _ (e n : ℕ) (start : e < 2 ^ 32) (window : n ≤ 0x7fffffff) (from : ℕ) where
  -- The frames `w` of `run` are written, those of the queue wait, and those of `fs` are to come.
  pub record IsRestoring (w : List Frame) (fs : List (ℕ × Frame)) (run : List Frame)
      (s : DelimFragHandler) : Type 0 where
    pub sent : IsRun e w s.expected_seq
    pub blocked : IsBlocked s.expected_seq s.frame_q
    pub waiting : Every (IsWithin e n) s.frame_q
    pub coming : Every (IsWithin e n) (frames_of fs)
    pub framed : AllFramed fs
    pub apart : Apart (offset e) (frames_of fs)
    pub clear : Clear (offset e) (frames_of fs) (w ++ s.frame_q)
    pub all : place_all (offset e) (w ++ s.frame_q) (frames_of fs) ≡ run
    pub room : length run ≤ s.seq_max_q
    pub short : length run ≤ n
    pub times : AllTimely from s.seq_max_tms fs
    pub timely : IsTimely e n from s

  Every-place :
      (f : Frame) (q : List Frame)
      → IsWithin e n f
      → Every (IsWithin e n) q
      → Every (IsWithin e n) (place (offset e) f q)
  unfolding Every place
  Every-place f [] v w = (v, tt)
  Every-place f (g ∷ q) v (u, w) = elim (Bool-cases (ltb (offset e f) (offset e g))) [
    | inl a ↦ rw a (v, (u, w))
    | inr a ↦ rw a (u, Every-place f q v w)
  ]

  handle_frame-InTime :
      (now : ℕ) (f : Frame) (fs : List (ℕ × Frame)) (w run : List Frame) (s : DelimFragHandler)
      → IsRestoring w ((now, f) ∷ fs) run s
      → InTime from (place (offset e) f s.frame_q) s (handle_frame now f s)
  unfolding handle_frame Every AllFramed Clear AllTimely place_all
  handle_frame-InTime now f fs w run s v =
      let whole : (not (f.flow == 1) || ltb f.len 10) ≡ false = ground (arith, v.framed.0) in
      let differs = (Differs-append (offset e) (offset e f) w s.frame_q v.clear.0).1 in
      let put = emplace-place e n start window f s.frame_q v.coming.0 v.waiting differs in
      let size : length (place (offset e) f s.frame_q) ≡ suc (length s.frame_q) =
        length-place (offset e) f s.frame_q in
      let total = length-place_all (offset e) (w ++ s.frame_q) (f ∷ frames_of fs) in
      rw (whole, put)
        (release-InTime e n start window from now (place (offset e) f s.frame_q) s
          (omega (arith, size))
          (omega (arith, size, ap length v.all, total, length-append w s.frame_q, v.room))
          (Every-place f s.frame_q v.coming.0 v.waiting) v.times.0 v.times.1 v.timely)

  pub zeroth : (w : List Frame) (x : ℕ) → IsRun e w x → IsRun ((e + 0) % 2 ^ 32) w x
  zeroth w x v = let same : e ≡ (e + 0) % 2 ^ 32 = omega arith in subst (λ a. IsRun a w x) same v

  -- What is written and what waits, after the call, is the frame put among them.
  joined-drain :
      (now : ℕ) (f : Frame) (fs : List (ℕ × Frame)) (w run : List Frame) (s : DelimFragHandler)
      → IsRestoring w ((now, f) ∷ fs) run s
      → let d = drain s.expected_seq (place (offset e) f s.frame_q) in
        (w ++ d.0) ++ d.1.0 ≡ place (offset e) f (w ++ s.frame_q)
  unfolding Clear place_all
  joined-drain now f fs w run s v =
      let d = drain s.expected_seq (place (offset e) f s.frame_q) in
      let total = length-place_all (offset e) (w ++ s.frame_q) (f ∷ frames_of fs) in
      let below =
        run-Below e n start window 0 s.expected_seq (offset e f) w
          (omega (arith, total, ap length v.all, length-append w s.frame_q, v.short))
          (zeroth w s.expected_seq v.sent)
          (Differs-append (offset e) (offset e f) w s.frame_q v.clear.0).0 (omega arith) in
      append_assoc w d.0 d.1.0
      ∙ ap (λ x. w ++ x) (drain-append s.expected_seq (place (offset e) f s.frame_q))
      ∙ sym (place-append (offset e) f w s.frame_q below)

  handle_frame-IsRestoring :
      (now : ℕ) (f : Frame) (fs : List (ℕ × Frame)) (w run : List Frame) (s : DelimFragHandler)
      → IsRestoring w ((now, f) ∷ fs) run s
      → let d = drain s.expected_seq (place (offset e) f s.frame_q) in
        IsRestoring (w ++ d.0) fs run (handle_frame now f s).0
  unfolding Every AllFramed Apart Clear AllTimely place_all IsTimely
  handle_frame-IsRestoring now f fs w run s v =
      let put = place (offset e) f s.frame_q in
      let d = drain s.expected_seq put in
      let r = handle_frame-InTime now f fs w run s v in
      let join = joined-drain now f fs w run s v in
      let released : Every (IsWithin e n) (d.0 ++ d.1.0) =
        rw (drain-append s.expected_seq put) (Every-place f s.frame_q v.coming.0 v.waiting) in
      record {
        sent =
            rw r.next
              (IsRun-append e s.expected_seq d.1.1 w d.0 v.sent (drain-IsRun s.expected_seq put));
        blocked = rw (r.left, r.next) (drain-IsBlocked s.expected_seq put);
        waiting = rw r.left (Every-append (IsWithin e n) d.0 d.1.0 released).1;
        coming = v.coming.1;
        framed = v.framed.1;
        apart = v.apart.1;
        clear =
            rw (r.left, join)
              (Clear-place (offset e) f (frames_of fs) (w ++ s.frame_q) v.apart.0 v.clear.1);
        all = rw (r.left, join) v.all;
        room = rw r.same_max v.room;
        short = v.short;
        times = rw r.same_span v.times.2;
        timely = inr r.timely;
      }

  nothing_waits :
      (w q run : List Frame) (next x : ℕ)
      → w ++ q ≡ run
      → IsRun e w x
      → IsRun e run next
      → IsBlocked x q
      → (q ≡ []) × (x ≡ next)
  unfolding IsRun IsBlocked
  nothing_waits w [] run next x h v r b =
      (refl, IsRun-rest e x next w [] v (subst (λ t. IsRun e t next) (sym h) r))
  nothing_waits w (g ∷ q) run next x h v r b =
      let (same, more) = IsRun-rest e x next w (g ∷ q) v (subst (λ t. IsRun e t next) (sym h) r) in
      absurd (b same)

  pub handle_all-IsRestoring :
      (fs : List (ℕ × Frame)) (w run : List Frame) (next : ℕ) (s : DelimFragHandler)
      → IsRestoring w fs run s
      → IsRun e run next
      → (map strip w ++ (handle_all fs s).1 ≡ map strip run)
        × ((handle_all fs s).0.frame_q ≡ [])
        × ((handle_all fs s).0.expected_seq ≡ next)
  unfolding handle_all place_all
  handle_all-IsRestoring [] w run next s v r =
      let (empty, same) =
        nothing_waits w s.frame_q run next s.expected_seq v.all v.sent r v.blocked in
      let all_sent : w ≡ run = sym (append_nil w) ∙ ap (λ q. w ++ q) (sym empty) ∙ v.all in
      (append_nil (map strip w) ∙ ap (map strip) all_sent, empty, same)
  handle_all-IsRestoring ((now, f) ∷ fs) w run next s v r =
      let d = drain s.expected_seq (place (offset e) f s.frame_q) in
      let call = handle_frame now f s in
      let rest =
        handle_all-IsRestoring fs (w ++ d.0) run next call.0
          (handle_frame-IsRestoring now f fs w run s v) r in
      let wrote = (handle_frame-InTime now f fs w run s v).writes in
      (
        ap (λ x. map strip w ++ (x ++ (handle_all fs call.0).1)) wrote
            ∙ sym (append_assoc (map strip w) (map strip d.0) (handle_all fs call.0).1)
            ∙ ap (λ x. x ++ (handle_all fs call.0).1) (sym (map-append strip w d.0))
            ∙ rest.0,
        rest.1,
        rest.2,
      )
