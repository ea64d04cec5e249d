-- ===== src/Database/Table.antt =====
-- A database in memory that meets the laws: it shows that they can hold, and runs the tests. Its
-- cursor has the entries newest first.
use chat_libp2p.Common.{
  ℕ, ◌+◌, ◌%◌, ◌^◌, ◌≡◌, ◌∙◌, bytes_beq_iff, refl, sym, ap, some_pair, Bool, true, false, Option,
  none, some, List, [], ◌∷◌, if◌then◌else◌, Bytes, bytes_beq,
}
use mathlib.Core.Option.{some-injective}
use chat_libp2p.Database.{Bolt, BoltLaws, same_entry}

pub record Tables : Type 0 where
  pub exists : Bytes → Bool
  pub sequence : Bytes → ℕ
  pub value : Bytes → Bytes → Option Bytes
  pub keys : List (Bytes × Bytes)

abbrev entries :
    (Bytes → Bytes → Option Bytes) → Bytes → List (Bytes × Bytes) → List (Bytes × Bytes)
entries value b [] = []
entries value b ((c, k) ∷ ks) =
    let rest = entries value b ks in
    elim (value c k) [ none ↦ rest | some v ↦ if bytes_beq b c then (k, v) ∷ rest else rest ]

abbrev pub empty_tables : Tables
empty_tables = record { exists = λ b. false; sequence = λ b. 0; value = λ b k. none; keys = [] }

abbrev pub table_bolt : Bolt
table_bolt = record {
  Tx = Tables;
  has = λ t b. t.exists b;
  create = λ t b.
      if t.exists b
      then none
      else some (record t { exists = λ c. if bytes_beq b c then true else t.exists c });
  drop_bucket = λ t b. record t {
    exists = λ c. if bytes_beq b c then false else t.exists c;
    value = λ c k. if bytes_beq b c then none else t.value c k;
  };
  get = λ t b k. t.value b k;
  put = λ t b k v. some (record t {
    value = λ c j. if same_entry b k c j then some v else t.value c j;
    keys = elim (t.value b k) [ none ↦ (b, k) ∷ t.keys | some w ↦ t.keys ];
  });
  delete =
      λ t b k. some (record t { value = λ c j. if same_entry b k c j then none else t.value c j });
  next_sequence = λ t b. some (
    (t.sequence b + 1) % 2 ^ 64,
    record t {
      sequence = λ c. if bytes_beq b c then (t.sequence b + 1) % 2 ^ 64 else t.sequence c;
    },
  );
  sequence = λ t b. t.sequence b;
  cursor = λ t b. entries t.value b t.keys;
}

create_lem :
    (b : Bool) (t u v : Tables) → (if b then none else some u) ≡ some v → (b ≡ false) × (u ≡ v)
create_lem true t u v e = cc
create_lem false t u v e = (refl, cc)

pub table_laws : BoltLaws table_bolt
table_laws = record {
  get-put = λ t u b k v c j e. sym (ap (λ (w : Tables). w.value c j) (some-injective _ u e));
  get-delete = λ t u b k c j e. sym (ap (λ (w : Tables). w.value c j) (some-injective _ u e));
  get-create =
      λ t u b c j e. sym (ap (λ (w : Tables). w.value c j) (create_lem (t.exists b) t _ u e).1);
  get-next_sequence =
      λ t u b c j n e. sym (ap (λ (w : Tables). w.value c j) (some_pair _ n _ u e).1);
  get-drop_bucket = λ t b c j. refl;
  has-put = λ t u b k v c e. sym (ap (λ (w : Tables). w.exists c) (some-injective _ u e));
  has-delete = λ t u b k c e. sym (ap (λ (w : Tables). w.exists c) (some-injective _ u e));
  has-drop_bucket = λ t b c. refl;
  has-create =
      λ t u b c e. sym (ap (λ (w : Tables). w.exists c) (create_lem (t.exists b) t _ u e).1);
  has-next_sequence = λ t u b c n e. sym (ap (λ (w : Tables). w.exists c) (some_pair _ n _ u e).1);
  next_sequence-sequence = λ t u b n e. (
    sym (some_pair _ n _ u e).0,
    sym (ap (λ (w : Tables). w.sequence b) (some_pair _ n _ u e).1)
        ∙ rw ((bytes_beq_iff b b).1 refl) (some_pair _ n _ u e).0,
  );
  sequence-put = λ t u b k v c e. sym (ap (λ (w : Tables). w.sequence c) (some-injective _ u e));
  sequence-create =
      λ t u b c e ne. sym (ap (λ (w : Tables). w.sequence c) (create_lem (t.exists b) t _ u e).1);
}
