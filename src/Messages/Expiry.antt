-- ===== src/Messages/Expiry.antt =====
-- internal/client/service/message.go: what a pass of the destroy loop does with the entry it meets first.
use chat_libp2p.Common.{
  ℕ, ◌≡◌, ◌∙◌, refl, sym, ap, subst, Bool, true, false, Bool-cases, inl, inr, if◌then◌else◌, Option,
  none, List, [], ◌∷◌, ◌++◌, Bytes, put_be, be_value, bytes_beq_iff, take, drop, length-put_be,
  take-append, drop-append,
}
use chat_libp2p.Database.{
  Bolt, BoltLaws, Result, ok, ◌>>=◌, or_fault, or_fault_ok, bind_ok, update, update_ok,
  key_destroy_msg, bolt_error, get_bucket, ends_open, same_entry, commit,
}
use chat_libp2p.Messages.{
  dialogue, pending, has_bucket, is_past, destroy_entries, destroy_in, destroy_pass, delete_in,
}

module _ (d : Bolt) where
  -- A pass that first meets an entry whose time has passed changes nothing, whatever else is scheduled.
  pub destroy_pass_expired :
      (t : d.Tx) (now : ℕ) (k v : Bytes) (rest : List (Bytes × Bytes))
      → d.cursor t key_destroy_msg ≡ (k, v) ∷ rest
      → is_past d now (be_value 0 (take 8 k)) ≡ true
      → destroy_pass d now t ≡ (ok tt, t)
  unfolding destroy_pass update commit destroy_in destroy_entries has_bucket get_bucket ends_open
  destroy_pass_expired t now k v rest first past = elim (Bool-cases (d.has t key_destroy_msg)) [
    | inl there ↦ rw (there, first, past)
    | inr missing ↦ rw missing
  ]

pub none_kept :
    (same : Bool) (before : Option Bytes) → before ≡ none → (if same then none else before) ≡ none
none_kept true before e = refl
none_kept false before e = e

module _ (d : Bolt) (w : BoltLaws d) where
  deleted :
      (there : Bool) (b k : Bytes) (t u : d.Tx)
      → (if there then or_fault bolt_error (d.delete t b k) else ok t) ≡ ok u
      → there ≡ true
      → d.get u b k ≡ none
  deleted true b k t u h e =
      w.get-delete t u b k b k (or_fault_ok bolt_error _ u h)
      ∙ rw ((bytes_beq_iff b b).1 refl, (bytes_beq_iff k k).1 refl)
  deleted false b k t u h e = absurd (cc e)

  stays :
      (there : Bool) (b k c j : Bytes) (t u : d.Tx)
      → (if there then or_fault bolt_error (d.delete t b k) else ok t) ≡ ok u
      → d.get t c j ≡ none
      → d.get u c j ≡ none
  stays true b k c j t u h e =
      w.get-delete t u b k c j (or_fault_ok bolt_error _ u h)
      ∙ none_kept (same_entry b k c j) (d.get t c j) e
  stays false b k c j t u h e = let same : t ≡ u = cc in rw (← same) e

  delete_in_there :
      (b k : Bytes) (t u : d.Tx)
      → delete_in d b k t ≡ ok u
      → has_bucket d b t ≡ true
      → d.get u b k ≡ none
  unfolding delete_in
  delete_in_there b k t u = deleted (has_bucket d b t) b k t u

  delete_in_stays :
      (b k c j : Bytes) (t u : d.Tx)
      → delete_in d b k t ≡ ok u
      → d.get t c j ≡ none
      → d.get u c j ≡ none
  unfolding delete_in
  delete_in_stays b k c j t u = stays (has_bucket d b t) b k c j t u

  entry_step :
      (now : ℕ) (k v : Bytes) (rest : List (Bytes × Bytes)) (t : d.Tx)
      → is_past d now (be_value 0 (take 8 k)) ≡ false
      → destroy_entries d now ((k, v) ∷ rest) t ≡ (do
        t1 ← delete_in d (dialogue (drop 8 v)) (take 8 v) t
        t2 ← delete_in d (pending (drop 8 v)) (take 8 v) t1
        destroy_entries d now rest t2)
  unfolding destroy_entries
  entry_step now k v rest t future = rw future

  entry_stop :
      (now : ℕ) (k v : Bytes) (rest : List (Bytes × Bytes)) (t : d.Tx)
      → is_past d now (be_value 0 (take 8 k)) ≡ true
      → destroy_entries d now ((k, v) ∷ rest) t ≡ ok t
  unfolding destroy_entries
  entry_stop now k v rest t past = rw past

  -- No entry comes back while the others are deleted.
  entries_stay :
      (now : ℕ) (es : List (Bytes × Bytes)) (c j : Bytes) (t u : d.Tx)
      → destroy_entries d now es t ≡ ok u
      → d.get t c j ≡ none
      → d.get u c j ≡ none
  unfolding destroy_entries
  entries_stay now [] c j t u h e = let same : t ≡ u = cc in rw (← same) e
  entries_stay now ((k, v) ∷ rest) c j t u h e =
      elim (Bool-cases (is_past d now (be_value 0 (take 8 k)))) [
        | inl past ↦ (let same : t ≡ u = cc (entry_stop now k v rest t past) in rw (← same) e)
        | inr future ↦
            (let h0 = sym (entry_step now k v rest t future) ∙ h in
              let (t1, first, h1) =
                bind_ok (delete_in d (dialogue (drop 8 v)) (take 8 v) t) _ u h0 in
              let (t2, second, h2) =
                bind_ok (delete_in d (pending (drop 8 v)) (take 8 v) t1) _ u h1 in
              entries_stay now rest c j t2 u h2
                (delete_in_stays _ _ c j t1 t2 second (delete_in_stays _ _ c j t t1 first e)))
      ]

  entry_deleted :
      (now : ℕ) (k v : Bytes) (rest : List (Bytes × Bytes)) (t u : d.Tx)
      → is_past d now (be_value 0 (take 8 k)) ≡ false
      → has_bucket d (dialogue (drop 8 v)) t ≡ true
      → destroy_entries d now ((k, v) ∷ rest) t ≡ ok u
      → d.get u (dialogue (drop 8 v)) (take 8 v) ≡ none
  entry_deleted now k v rest t u future there h =
      let h0 = sym (entry_step now k v rest t future) ∙ h in
      let (t1, first, h1) = bind_ok (delete_in d (dialogue (drop 8 v)) (take 8 v) t) _ u h0 in
      let (t2, second, h2) = bind_ok (delete_in d (pending (drop 8 v)) (take 8 v) t1) _ u h1 in
      entries_stay now rest (dialogue (drop 8 v)) (take 8 v) t2 u h2 (
        delete_in_stays _ _ (dialogue (drop 8 v)) (take 8 v) t1 t2 second
          (delete_in_there (dialogue (drop 8 v)) (take 8 v) t t1 first there))

  ok_unit : (t u : d.Tx) → ◌≡◌ {A = Result (Unit {0} × d.Tx)} (ok (tt, t)) (ok (tt, u)) → t ≡ u
  ok_unit t u h = cc

  pass_in :
      (t : d.Tx) (now : ℕ)
      → has_bucket d key_destroy_msg t ≡ true
      → destroy_in d now t
        ≡ (do u ← destroy_entries d now (d.cursor t key_destroy_msg) t; ok (tt, u))
  unfolding destroy_in
  pass_in t now there = rw there

  pass_entries :
      (t u : d.Tx) (now : ℕ)
      → has_bucket d key_destroy_msg t ≡ true
      → destroy_pass d now t ≡ (ok tt, u)
      → destroy_entries d now (d.cursor t key_destroy_msg) t ≡ ok u
  unfolding destroy_pass
  pass_entries t u now there h =
      let h0 = update_ok d (destroy_in d now) t u tt h in
      let (v, run, h1) =
        bind_ok (destroy_entries d now (d.cursor t key_destroy_msg) t) _ (tt, u)
          (sym (pass_in t now there) ∙ h0) in
      run ∙ ap ok (ok_unit v u h1)

  -- A pass that first meets the schedule of a message whose time has not yet come deletes that message.
  pub destroy_pass_early :
      (t u : d.Tx) (now id : ℕ) (k peer : Bytes) (rest : List (Bytes × Bytes))
      → has_bucket d key_destroy_msg t ≡ true
      → has_bucket d (dialogue peer) t ≡ true
      → d.cursor t key_destroy_msg ≡ (k, put_be 8 id ++ peer) ∷ rest
      → is_past d now (be_value 0 (take 8 k)) ≡ false
      → destroy_pass d now t ≡ (ok tt, u)
      → d.get u (dialogue peer) (put_be 8 id) ≡ none
  destroy_pass_early t u now id k peer rest planned there first future h =
      let run =
        ap (λ es. destroy_entries d now es t) (sym first) ∙ pass_entries t u now planned h in
      let name : drop 8 (put_be 8 id ++ peer) ≡ peer =
        drop-append 8 (put_be 8 id) peer (length-put_be 8 id) in
      let key : take 8 (put_be 8 id ++ peer) ≡ put_be 8 id =
        take-append 8 (put_be 8 id) peer (length-put_be 8 id) in
      subst (λ p. d.get u (dialogue p) (put_be 8 id) ≡ none) name
        (subst (λ x. d.get u (dialogue (drop 8 (put_be 8 id ++ peer))) x ≡ none) key
          (entry_deleted now k (put_be 8 id ++ peer) rest t u future
            (subst (λ p. has_bucket d (dialogue p) t ≡ true) (sym name) there) run))
