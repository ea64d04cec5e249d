-- ===== src/Deferred.antt =====
-- What a run opens, and closes by `defer` when it returns: internal/client/client.go and
-- internal/server/server.go. A closing is the run's own call of Close, Stop or cancel; what a library's
-- Close closes besides, such as the node below the wrapped host, is not told here.
pub mod Balance
pub mod Unowned
pub mod Announced
use chat_libp2p.Common.{Bool, true, false, List, [], ◌∷◌, ◌++◌, Option, none, some}

pub data Resource : Type 0 where
  bolt : Resource
  node : Resource
  table : Resource
  context : Resource
  routed : Resource
  ticker : Resource

-- `announced` is the moment when the channel OK is closed, `manager_made` the one when there is a resource
-- manager, whose Close is not deferred: it is libp2p.New that takes it over.
pub data Note : Type 0 where
  opened : Resource → Note
  closed : Resource → Note
  announced : Note
  manager_made : Note

-- The calls that may return an error.
pub data Call : Type 0 where
  private_key : Call
  evm_address : Call
  bootstrap_list : Call
  image_dir : Call
  database_dir : Call
  new_bolt : Call
  resource_manager : Call
  new_node : Call
  new_table : Call
  bootstrap_table : Call
  save_self : Call

pub data Outcome : Type 0 where
  failed : Call → Outcome
  disconnected : Outcome
  cancelled : Outcome
  halted : Outcome

-- A run that goes on, or one that has returned.
pub data Run : Type 0 where
  waiting : List Note → Run
  returned : Outcome → List Note → Run

-- What has happened so far, and the deferred closings, the last one first.
pub record Going : Type 0 where
  pub notes : List Note
  pub deferred : List Resource

abbrev pub nothing : Going
nothing = record { notes = []; deferred = [] }

-- What is opened and has its closing deferred.
unfoldable pub acquire : Resource → Going → Going
acquire r s = record { notes = s.notes ++ opened r ∷ []; deferred = r ∷ s.deferred }

unfoldable pub note : Note → Going → Going
note n s = record s { notes = s.notes ++ n ∷ [] }

abbrev pub closings : List Resource → List Note
closings [] = []
closings (r ∷ rs) = closed r ∷ closings rs

-- `return`
unfoldable pub finish : Outcome → Going → Run
finish o s = returned o (s.notes ++ closings s.deferred)

-- `if err != nil { return }` after a call, and else the rest.
unfoldable pub attempt : Bool → Call → (Going → Run) → Going → Run
unfolding finish
attempt true c rest s = rest s
attempt false c rest s = finish (failed c) s
