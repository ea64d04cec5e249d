-- ===== src/Examples/Images.antt =====
-- A file system in memory, for the images of internal/client/service/message.go.
use chat_libp2p.Common.{
  bytes_beq, ◌≡◌, refl, true, some, List, [], ◌∷◌, Bytes, lookup, insert, bytes_eq, beq_refl, subst,
  lookup-insert,
}
use mathlib.Core.Option.{some-injective}
use chat_libp2p.Database.{codes}
use chat_libp2p.Messages.Files.{Host, HostLaws}

-- Files as a list, and sums that are the content itself.
abbrev pub small_host : Host
small_host = record {
  Files = List (Bytes × Bytes);
  read_file = λ f path. lookup path f;
  write_file = λ f path bs. some (insert path bs f);
  remove = λ f path. f;
  make_dirs = λ f path. some f;
  is_missing = λ f path. true;
  stat_ok = λ f path. bytes_beq path (b'.' ∷ []);
  content_type = λ bs. codes "image/png";
  extensions = λ ct. some (codes ".png" ∷ []);
  hash_text = λ bs. bs;
}

found_again :
    (path bs : Bytes) (f : List (Bytes × Bytes)) → lookup path (insert path bs f) ≡ some bs
found_again path bs f = rw (lookup-insert path path bs f, beq_refl path) refl

pub small_laws : HostLaws small_host
small_laws = record {
  read-write = λ f g path bs e.
      subst (λ m. lookup path m ≡ some bs) (some-injective (insert path bs f) g e)
        (found_again path bs f);
}

abbrev pub dir : Bytes
dir = codes "/data"

abbrev pub month : Bytes
month = codes "202301"
