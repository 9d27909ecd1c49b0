-- ===== src/ProtoConv/Flows/Tests.antt =====
-- src/ProtoConv/DNP3FragHandler.cpp: runs with a few frames.
use mathlib.Core.List.{Perm}
use mini_plex.Base.{true, false, [], ◌∷◌, ◌++◌}
use mini_plex.ProtoConv.{Frame}
use mini_plex.ProtoConv.Flows.{whole, dnp3_handle_frame}
use mini_plex.ProtoConv.Flows.Pending.{all_pending, dnp3_handle_frame-Perm}
use mini_plex.ProtoConv.Flows.Flags.{AllFlows, handle_frames, handle_frames-AllFlows}
use mini_plex.Base.{◌≡◌, refl, map, arith}
use mathlib.Core.List.Perm
use mini_plex.ProtoConv.Flows.{new_flow}
use mini_plex.ProtoConv.Flows.Numbered.{IsNumbered}
use mini_plex.ProtoConv.Flows.Reassembled.{IsMessage, IsIdle}
use mini_plex.ProtoConv.Flows.Isolated.{flow_of, only, writes_of, writes_of-IsMessage}

-- The two fragments of a message, and a frame by itself.
abbrev first : Frame
first = record { buf = 1 ∷ []; len = 1; fir = true; fin = false; flow = 9; seq = 4 }

abbrev last : Frame
last = record { buf = 2 ∷ []; len = 1; fir = false; fin = true; flow = 9; seq = 5 }

abbrev single : Frame
single = record { buf = 3 ∷ []; len = 1; fir = true; fin = true; flow = 8; seq = 0 }

dnp3_handle_frame-Perm_example :
    Perm
      ((dnp3_handle_frame first []).1 ++ all_pending (dnp3_handle_frame first []).0)
      (whole first ∷ [])
dnp3_handle_frame-Perm_example = dnp3_handle_frame-Perm first []

handle_frames-AllFlows_example : AllFlows (handle_frames (last ∷ single ∷ first ∷ []) [])
unfolding AllFlows
handle_frames-AllFlows_example = handle_frames-AllFlows (last ∷ single ∷ first ∷ []) [] tt

idle : IsIdle new_flow
idle = record { no_frag = refl; no_next = refl; no_seq = refl; no_fin = refl; no_fir = refl }

message : IsMessage 4 (first ∷ last ∷ [])
unfolding IsNumbered
message = record {
  number = omega arith;
  many = omega arith;
  most = omega arith;
  numbered = (refl, refl, refl, (refl, refl, refl, refl));
}

writes_of-IsMessage_example :
    (writes_of 9 (last ∷ single ∷ first ∷ []) [] ≡ map whole (first ∷ last ∷ []))
    × IsIdle (flow_of 9 (handle_frames (last ∷ single ∷ first ∷ []) []))
unfolding only flow_of
writes_of-IsMessage_example =
    writes_of-IsMessage 9 4 (first ∷ last ∷ []) (last ∷ single ∷ first ∷ []) [] (omega arith)
      message (Perm.swap first last []) idle
