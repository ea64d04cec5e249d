-- ===== src/Probe/Latest.antt =====
-- What the consumer of a probe's statuses sees.
use chat_libp2p.Common.{
  ◌≡◌, ◌∙◌, refl, sym, ap, subst, arith, true, false, Option, none, some, List, [], ◌∷◌,
  Option-cases, inl, inr,
}
use mathlib.Core.Option.{some-injective}
use chat_libp2p.Probe.{
  Beat, alive, dead, panicked, Status, off, relay, direct, same_status, Probing, start,
  update_status, status_of, probe_round, take_status, Turn, beats, takes, turn, turns,
}

-- What the consumer knows: the last status that it took, unless a newer one waits.
abbrev pub known : Probing × Option Status → Option Status
known (p, seen) = elim p.place [ none ↦ seen | some s ↦ some s ]

-- The status after the last heartbeat, from one before.
abbrev pub last_status : Status → List Turn → Status
last_status s [] = s
last_status s (takes ∷ ts) = last_status s ts
last_status s (beats b ∷ ts) = last_status (elim (status_of b) [ none ↦ s | some t ↦ t ]) ts

abbrev IsCurrent : Probing × Option Status → Type 0
IsCurrent r = known r ≡ some r.0.status

same_status_eq : (s t : Status) → same_status s t ≡ true → s ≡ t
unfolding same_status
same_status_eq off off h = refl
same_status_eq off relay h = cc
same_status_eq off direct h = cc
same_status_eq relay off h = cc
same_status_eq relay relay h = refl
same_status_eq relay direct h = cc
same_status_eq direct off h = cc
same_status_eq direct relay h = cc
same_status_eq direct direct h = refl

updated :
    (p : Probing) (seen : Option Status) (s : Status)
    → IsCurrent (p, seen)
    → IsCurrent (update_status p s, seen) × ((update_status p s).status ≡ s)
unfolding update_status
updated p seen s v = ground (arith, same_status_eq p.status s)

abbrev status_after : Status → Beat → Status
status_after s b = elim (status_of b) [ none ↦ s | some t ↦ t ]

beat_goal :
    (p : Probing) (seen : Option Status) (s : Status) (r : Probing × Option Status)
    → (update_status p s, seen) ≡ r
    → IsCurrent (p, seen)
    → IsCurrent r × (r.0.status ≡ s)
beat_goal p seen s r same v = subst (λ x. IsCurrent x × (x.0.status ≡ s)) same (updated p seen s v)

beat-IsCurrent :
    (p : Probing) (seen : Option Status) (b : Beat) (r : Probing × Option Status)
    → turn (beats b) (p, seen) ≡ some r
    → IsCurrent (p, seen)
    → IsCurrent r × (r.0.status ≡ status_after p.status b)
unfolding turn probe_round status_of
beat-IsCurrent p seen (alive true) r h v = beat_goal p seen direct r (some-injective _ r h) v
beat-IsCurrent p seen (alive false) r h v = beat_goal p seen relay r (some-injective _ r h) v
beat-IsCurrent p seen dead r h v = beat_goal p seen off r (some-injective _ r h) v
beat-IsCurrent p seen panicked r h v = absurd (cc h)

current_taken :
    (p : Probing) (seen : Option Status) (s : Status)
    → p.place ≡ some s
    → IsCurrent (p, seen)
    → some s ≡ some p.status
current_taken p seen s e v = ground arith

take-IsCurrent :
    (p : Probing) (seen o : Option Status) (r : Probing × Option Status)
    → p.place ≡ o
    → turn takes (p, seen) ≡ some r
    → IsCurrent (p, seen)
    → IsCurrent r × (r.0.status ≡ p.status)
unfolding turn take_status
take-IsCurrent p seen none r e h v =
    let same : ◌≡◌ {A = Probing × Option Status} (p, seen) r =
      some-injective _ r (rw (e, take_status, turn) at h) in
    subst (λ x. IsCurrent x × (x.0.status ≡ p.status)) same (v, refl)
take-IsCurrent p seen (some s) r e h v =
    let same : ◌≡◌ {A = Probing × Option Status} (record p { place = none }, some s) r =
      some-injective _ r (rw (e, take_status, turn) at h) in
    subst (λ x. IsCurrent x × (x.0.status ≡ p.status)) same (current_taken p seen s e v, refl)

turn-IsCurrent :
    (t : Turn) (q r : Probing × Option Status)
    → turn t q ≡ some r
    → IsCurrent q
    → IsCurrent r × (r.0.status ≡ last_status q.0.status (t ∷ []))
turn-IsCurrent (beats b) (p, seen) r h v = beat-IsCurrent p seen b r h v
turn-IsCurrent takes (p, seen) r h v = take-IsCurrent p seen p.place r refl h v

last_status-cons :
    (s : Status) (t : Turn) (ts : List Turn)
    → last_status s (t ∷ ts) ≡ last_status (last_status s (t ∷ [])) ts
last_status-cons s takes ts = refl
last_status-cons s (beats b) ts = refl

turns-IsCurrent :
    (ts : List Turn) (q r : Probing × Option Status)
    → turns ts q ≡ some r
    → IsCurrent q
    → IsCurrent r × (r.0.status ≡ last_status q.0.status ts)
unfolding turns
turns-IsCurrent [] q r h v =
    subst (λ x. IsCurrent x × (x.0.status ≡ q.0.status)) (some-injective q r h) (v, refl)
turns-IsCurrent (t ∷ ts) q r h v = elim (Option-cases (turn t q)) [
  | inl bad ↦ absurd (cc (rw (bad, turns) at h))
  | inr (u, good) ↦
      (let (now, status) = turn-IsCurrent t q u good v in
        let (after, last) = turns-IsCurrent ts u r (rw (good, turns) at h) now in
        (after, last ∙ ap (λ s. last_status s ts) status ∙ sym (last_status-cons q.0.status t ts)))
]

-- Whatever heartbeats a probe sends and whenever its consumer takes a status, the status that the
-- consumer took last, or the newer one that waits for it, is that of the last heartbeat; before the
-- first one it is off.
pub turns_latest :
    (ts : List Turn) (r : Probing × Option Status)
    → turns ts (start, none) ≡ some r
    → known r ≡ some (last_status off ts)
turns_latest ts r h =
    let (current, last) = turns-IsCurrent ts (start, none) r h refl in current ∙ ap some last
