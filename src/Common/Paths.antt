-- ===== src/Common/Paths.antt =====
-- What the program uses of Go's path/filepath, for Unix paths: Clean, Join, Base and Dir.
use Prim.Native.Nat.{ℕ}
use mathlib.Core.Bool.{Bool, false}
use mathlib.Core.List.{List, [], ◌∷◌, ◌++◌}
use chat_libp2p.Common.Tests.{◌==◌, if◌then◌else◌}
use chat_libp2p.Common.Slices.{Bytes}
use chat_libp2p.Common.Maps.{bytes_beq}

abbrev pub separator : ℕ
separator = b'/'

abbrev pub current_dir : Bytes
current_dir = b'.' ∷ []

abbrev pub parent_dir : Bytes
parent_dir = b'.' ∷ b'.' ∷ []

-- The parts between separators, the first one's beginning given.
unfoldable pub split_path : Bytes → Bytes → List Bytes
split_path part [] = part ∷ []
split_path part (b ∷ bs) =
    if b == separator then part ∷ split_path [] bs else split_path (part ++ b ∷ []) bs

unfoldable pub join_parts : List Bytes → Bytes
join_parts [] = []
join_parts (e ∷ []) = e
join_parts (e ∷ e' ∷ es) = e ++ separator ∷ join_parts (e' ∷ es)

-- `..` takes the last part back; above a root there is nothing.
unfoldable pub leave : Bool → List Bytes → List Bytes
leave rooted [] = if rooted then [] else parent_dir ∷ []
leave rooted (e ∷ es) = if bytes_beq e parent_dir then parent_dir ∷ e ∷ es else es

-- The parts that are left, the last one first.
unfoldable pub walk : Bool → List Bytes → List Bytes → List Bytes
unfolding leave
walk rooted done [] = done
walk rooted done (e ∷ es) =
    walk rooted
      (if bytes_beq e []
        then done
        else if bytes_beq e current_dir
        then done
        else if bytes_beq e parent_dir
        then leave rooted done
        else e ∷ done)
      es

unfoldable pub backwards : List Bytes → List Bytes → List Bytes
backwards [] done = done
backwards (e ∷ es) done = backwards es (e ∷ done)

unfoldable pub is_rooted : Bytes → Bool
is_rooted [] = false
is_rooted (b ∷ bs) = b == separator

-- Clean
unfoldable pub clean : Bytes → Bytes
unfolding split_path join_parts walk backwards is_rooted
clean path =
    let parts = join_parts (backwards (walk (is_rooted path) [] (split_path [] path)) []) in
    if is_rooted path then separator ∷ parts else if bytes_beq parts [] then current_dir else parts

-- Join: empty parts at the beginning are left out.
unfoldable pub join : List Bytes → Bytes
unfolding clean join_parts
join [] = []
join ([] ∷ es) = join es
join ((b ∷ bs) ∷ es) = clean (join_parts ((b ∷ bs) ∷ es))

unfoldable pub last_part : Bytes → List Bytes → Bytes
last_part part [] = part
last_part part (e ∷ es) = last_part (if bytes_beq e [] then part else e) es

-- Base
unfoldable pub base : Bytes → Bytes
unfolding last_part split_path is_rooted
base path =
    let part = last_part [] (split_path [] path) in
    if bytes_beq path [] then current_dir else if bytes_beq part [] then separator ∷ [] else part

-- What of a path is not after its last separator.
unfoldable pub dir_part : Bytes → Bytes
dir_part [] = []
dir_part (b ∷ bs) = elim (dir_part bs) [
  | c ∷ cs ↦ b ∷ c ∷ cs
  | [] ↦ if b == separator then b ∷ [] else []
]

-- Dir
unfoldable pub dir : Bytes → Bytes
unfolding dir_part clean
dir path = clean (dir_part path)
