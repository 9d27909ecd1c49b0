-- ===== src/ProtoConv.antt =====
-- src/ProtoConv: frames, the interface of a frame checker, and the checker that checks nothing.
pub mod Bytes
pub mod Crc
pub mod Delim
pub mod Stream
pub mod Reorder
pub mod Dnp3
pub mod Flows
pub mod Wire
pub mod Through
pub mod Serial
pub mod Args
pub mod Construct
pub mod System
pub mod Receiving
mod Tests
use mini_plex.Base.{ℕ, ◌≤◌, ◌≡◌, Bool, true, not, ◌&&◌, List, [], length}
use native.Mathlib.Nat.{le_refl}

-- `Frame` of FrameChecker.h. The bytes at `pBuf` are `buf`, empty for the null pointer.
pub record Frame : Type 0 where
  pub buf : List ℕ
  pub len : ℕ
  pub fir : Bool
  pub fin : Bool
  pub flow : ℕ
  pub seq : ℕ

pub Frame_set : IsSet Frame
Frame_set = hlevel

-- The constructor; `frame_of` has its default arguments.
abbrev pub frame : ℕ → Bool → Bool → ℕ → ℕ → Frame
frame len fir fin flow seq = record {
  buf = [];
  len = len;
  fir = fir;
  fin = fin;
  flow = flow;
  seq = seq;
}

abbrev pub frame_of : ℕ → Frame
frame_of len = frame len true true 0 0

-- `isFragment`
abbrev pub is_fragment : Frame → Bool
is_fragment f = not (f.fir && f.fin)

-- `FrameChecker`: what `RcvStreamHandler` relies on.
pub record FrameChecker : Type 0 where
  pub check_frame : List ℕ → Frame
  pub len-check_frame-le : (buf : List ℕ) → (check_frame buf).len ≤ length buf

-- `NullFrameChecker::CheckFrame`
unfoldable pub null_check_frame : List ℕ → Frame
null_check_frame readbuf = frame_of (length readbuf)

pub len-null_check_frame-le : (buf : List ℕ) → (null_check_frame buf).len ≤ length buf
unfolding null_check_frame
len-null_check_frame-le buf = le_refl _

abbrev pub null_checker : FrameChecker
null_checker = record {
  check_frame = null_check_frame;
  len-check_frame-le = len-null_check_frame-le;
}
