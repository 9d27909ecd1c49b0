-- ===== src/ProtoConv/Serial/Live.antt =====
-- src/ProtoConv/SerialPortsManager.cpp: every message that waits is written.
use mini_plex.Base.{
  ◌&&◌, ℕ, ◌≡◌, refl, sym, ap, ◌∙◌, Bool, true, List, [], ◌∷◌, ◌++◌, length, ltb, append_assoc,
  append_nil, ℕ_discrete, arith,
}
use mini_plex.Base.Sets.{contains, contains-count}
use mini_plex.ProtoConv.Serial.{Leaving, started, write_done_with, write_done}
use mini_plex.ProtoConv.Serial.Queue.{
  Writing, after_done, Step, ends, Reach, here, next, initially, IsScheduled,
}
use mini_plex.ProtoConv.Serial.Scheduled.{Reach-IsScheduled, after_done-IsScheduled, nil_of}

-- Writes that end, on these ports in turn, while nothing arrives.
unfoldable pub end_all : List ℕ → Writing → Writing
end_all [] w = w
end_all (idx ∷ idxs) w = end_all idxs (after_done idx w)

-- The messages that start on these ports in turn.
abbrev pub started_on : List ℕ → List (List ℕ) → List Leaving
started_on (idx ∷ idxs) (m ∷ q) = started idx m ∷ started_on idxs q
started_on [] q = []
started_on idxs [] = []

-- Every index is below the number of ports.
abbrev pub all_below : ℕ → List ℕ → Bool
all_below n [] = true
all_below n (idx ∷ idxs) = ltb idx n && all_below n idxs

Reach-front : {w u v : Writing} → Step w u → Reach u v → Reach w v
Reach-front s here = next here s
Reach-front s (next r t) = next (Reach-front s r) t

-- While a message waits, every port has an outstanding write.
busy_of :
    {n max : ℕ} (idx : ℕ) (w : Writing) (m : List ℕ) (q : List (List ℕ))
    → IsScheduled n max w
    → w.manager.write_q ≡ m ∷ q
    → ltb idx n ≡ true
    → contains ℕ_discrete w.busy idx ≡ true
unfolding contains
busy_of {n} idx w m q s e h =
    let idle = nil_of w.manager.idle_port_idx_q (ground (arith, s.working, e)) in
    let ports = s.ports idx in contains-count ℕ_discrete idx w.busy ∙ ground (arith, ports, idle, h)

after_done-write_q :
    (idx : ℕ) (w : Writing) (m : List ℕ) (q : List (List ℕ))
    → w.manager.write_q ≡ m ∷ q
    → (after_done idx w).manager.write_q ≡ q
unfolding after_done write_done write_done_with
after_done-write_q idx w m q e = ap (λ x. (write_done_with idx x w.manager).0.write_q) e

after_done-left :
    (idx : ℕ) (w : Writing) (m : List ℕ) (q : List (List ℕ))
    → w.manager.write_q ≡ m ∷ q
    → (after_done idx w).left ≡ w.left ++ started idx m ∷ []
unfolding after_done write_done write_done_with
after_done-left idx w m q e = ap (λ x. w.left ++ (write_done_with idx x w.manager).1) e

drains :
    {n max : ℕ} (idxs : List ℕ) (q : List (List ℕ)) (w : Writing)
    → IsScheduled n max w
    → w.manager.write_q ≡ q
    → all_below n idxs ≡ true
    → length idxs ≡ length q
    → Reach w (end_all idxs w)
      × ((end_all idxs w).manager.write_q ≡ [])
      × ((end_all idxs w).left ≡ w.left ++ started_on idxs q)
unfolding end_all
drains [] [] w s e h l = (here, e, sym (append_nil w.left))
drains [] (m ∷ q) w s e h l = ground arith
drains (idx ∷ idxs) [] w s e h l = ground arith
drains (idx ∷ idxs) (m ∷ q) w s e h l =
    let b = busy_of idx w m q s e (ground (arith, h)) in
    let r =
      drains idxs q (after_done idx w) (after_done-IsScheduled idx w b s)
        (after_done-write_q idx w m q e) (ground (arith, h)) (omega (arith, l)) in
    (
      Reach-front (ends idx b) r.0,
      r.1,
      r.2
          ∙ ap (λ x. x ++ started_on idxs q) (after_done-left idx w m q e)
          ∙ append_assoc w.left (started idx m ∷ []) (started_on idxs q),
    )

-- From the constructor's state: while messages wait, writes that end on any ports of the manager,
-- as many as messages wait, without a new message, are each the end of an outstanding write; they
-- start every waiting message in its order on the port that came free, drop none, and leave the
-- queue empty.
pub waiting_written :
    (num_ports max : ℕ) {w : Writing} (idxs : List ℕ)
    → Reach (initially num_ports max) w
    → all_below num_ports idxs ≡ true
    → length idxs ≡ length w.manager.write_q
    → Reach w (end_all idxs w)
      × ((end_all idxs w).manager.write_q ≡ [])
      × ((end_all idxs w).left ≡ w.left ++ started_on idxs w.manager.write_q)
waiting_written num_ports max {w} idxs r h l =
    drains idxs w.manager.write_q w (Reach-IsScheduled num_ports max r) refl h l
