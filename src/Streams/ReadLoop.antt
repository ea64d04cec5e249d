-- ===== src/Streams/ReadLoop.antt =====
-- internal/common/xrmmgr.go: the loop of readLoop, over the bytes of one stream. What it hands to the
-- manager's two functions is a list; an acknowledgement and an unknown flag hand nothing.
use chat_libp2p.Common.{
  ℕ, zero, suc, ◌≡◌, ◌≢◌, refl, ap, Bool-cases, inl, inr, ==_iff, false, List, [], ◌∷◌, ◌++◌, Bytes,
  length, ◌==◌, if◌then◌else◌,
}
use chat_libp2p.Frame.{Frame, new_frame, IsFrame, encode, flag_meta, flag_data}
use chat_libp2p.Reader.{Outcome, done, failed, panicked, stuck, meta_byte, read}
use chat_libp2p.Reader.RoundTrip.{read-encode}

pub data Call : Type 0 where
  meta_func data_func : Bytes → Call

-- `switch frame.Flag`
unfoldable pub calls : Frame → List Call
calls f =
    if f.flag == flag_meta
    then meta_func f.payload ∷ []
    else if f.flag == flag_data
    then data_func f.payload ∷ []
    else []

-- One round of the loop: `others` are the rounds after it.
unfoldable pub round :
    Outcome × Frame × Bytes → (Frame → Bytes → List Call × Outcome) → List Call × Outcome
unfolding calls
round (done, f, rest) others = let (cs, out) = others f rest in (calls f ++ cs, out)
round (failed e, f, rest) others = ([], failed e)
round (panicked, f, rest) others = ([], panicked)
round (stuck, f, rest) others = ([], stuck)

-- The loop, for at most `fuel` frames, and how the last Read ended.
unfoldable pub read_loop : (fuel alloc : ℕ) → Frame → Bytes → List Call × Outcome
unfolding round
read_loop zero alloc frame conn = ([], stuck)
read_loop (suc fuel) alloc frame conn = round (read alloc frame conn) (read_loop fuel alloc)

abbrev pub written : List Frame → Bytes
written [] = []
written (f ∷ fs) = encode f ++ written fs

-- A frame as its sender means it: with a payload for one of the two functions, or for none of them.
pub data Meant : Type 0 where
  meta bulk : Bytes → Meant
  other : (flag : ℕ) → flag ≢ flag_meta → flag ≢ flag_data → Bytes → Meant

abbrev pub frame_of : Meant → Frame
frame_of (meta payload) = new_frame flag_meta payload
frame_of (bulk payload) = new_frame flag_data payload
frame_of (other flag m n payload) = new_frame flag payload

abbrev pub frames_of : List Meant → List Frame
frames_of [] = []
frames_of (x ∷ xs) = frame_of x ∷ frames_of xs

-- The calls that a receiver owes to the sender.
abbrev pub owed : List Meant → List Call
owed [] = []
owed (meta payload ∷ xs) = meta_func payload ∷ owed xs
owed (bulk payload ∷ xs) = data_func payload ∷ owed xs
owed (other flag m n payload ∷ xs) = owed xs

abbrev pub AreFrames : ℕ → List Frame → Type 0
AreFrames alloc [] = Unit {0}
AreFrames alloc (f ∷ fs) = IsFrame alloc f × AreFrames alloc fs

differ : (a b : ℕ) → a ≢ b → (a == b) ≡ false
differ a b ne = elim (Bool-cases (a == b)) [
  | inl same ↦ absurd (ne ((==_iff a b).0 same))
  | inr apart ↦ apart
]

calls_owed : (x : Meant) (xs : List Meant) → calls (frame_of x) ++ owed xs ≡ owed (x ∷ xs)
unfolding calls
calls_owed (meta payload) xs = refl
calls_owed (bulk payload) xs = refl
calls_owed (other flag m n payload) xs = rw (differ flag flag_meta m, differ flag flag_data n) refl

loop_step :
    (fuel alloc : ℕ) (frame f : Frame) (conn rest : Bytes)
    → read alloc frame conn ≡ (done, f, rest)
    → read_loop (suc fuel) alloc frame conn
      ≡ (calls f ++ (read_loop fuel alloc f rest).0, (read_loop fuel alloc f rest).1)
unfolding read_loop round
loop_step fuel alloc frame f conn rest e = ap (λ r. round r (read_loop fuel alloc)) e

-- From a stream that carries frames one after the other and then ends, the read loop calls the function of
-- meta frames with the payload of each meta frame and the function of data frames with that of each data
-- frame, in the order of the frames, calls nothing for a frame with another flag, and ends at the first
-- byte that is missing; a loop for one frame more than there are is enough.
pub read_loop-written :
    (alloc : ℕ) (frame : Frame) (xs : List Meant)
    → AreFrames alloc (frames_of xs)
    → read_loop (suc (length xs)) alloc frame (written (frames_of xs)) ≡ (owed xs, failed meta_byte)
unfolding read_loop round read
read_loop-written alloc frame [] v = refl
read_loop-written alloc frame (x ∷ xs) v =
    rw
      (
        loop_step (suc (length xs)) alloc frame (frame_of x) _ _
            (read-encode alloc frame (frame_of x) (written (frames_of xs)) v.0),
        read_loop-written alloc (frame_of x) xs v.1,
      )
      (ap (λ cs. (cs, failed meta_byte)) (calls_owed x xs))
