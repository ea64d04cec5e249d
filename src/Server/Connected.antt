-- ===== src/Server/Connected.antt =====
-- Which peers the relay server connects to at its start: internal/server/server.go.
use chat_libp2p.Common.{
  ◌≡◌, ◌∙◌, refl, ap, Bool, true, false, Option, none, some, List, [], ◌∷◌, ◌++◌, Bytes,
}
use chat_libp2p.Server.{connect_next, connect_parsed, connect_bootstrap}

module _ {A : Type 0} (parse : Bytes → Option A) (connect : A → Bool) where
  abbrev pub if_connected : Bool → A → Option A
  if_connected true a = some a
  if_connected false a = none

  -- The peer of an address, if the address is read and the peer can be connected.
  abbrev pub reached_peer : Option A → Option A
  reached_peer none = none
  reached_peer (some a) = if_connected (connect a) a

  next_stops :
      (b : Bool) (a : A) (others : List A × Bool)
      → if_connected b a ≡ none
      → connect_next parse connect b a others ≡ ([], false)
  unfolding connect_next
  next_stops true a others e = cc e
  next_stops false a others e = refl

  parsed_stops :
      (o : Option A) (others : List A × Bool)
      → reached_peer o ≡ none
      → connect_parsed parse connect o others ≡ ([], false)
  unfolding connect_parsed
  parsed_stops none others e = refl
  parsed_stops (some a) others e = next_stops (connect a) a others e

  next_keeps :
      (b : Bool) (a : A) (ps : List A × Bool)
      → connect_next parse connect b a (ps.0, false)
        ≡ ((connect_next parse connect b a ps).0, false)
  unfolding connect_next
  next_keeps true a ps = refl
  next_keeps false a ps = refl

  parsed_keeps :
      (o : Option A) (ps : List A × Bool)
      → connect_parsed parse connect o (ps.0, false)
        ≡ ((connect_parsed parse connect o ps).0, false)
  unfolding connect_parsed
  parsed_keeps none ps = refl
  parsed_keeps (some a) ps = next_keeps (connect a) a ps

  -- After an address that is not read, or whose peer cannot be connected, connectBootstrap tries none of
  -- the addresses that follow, and it returns an error.
  pub bootstrap_stops :
      (good more : List Bytes) (bad : Bytes)
      → reached_peer (parse bad) ≡ none
      → connect_bootstrap parse connect (good ++ bad ∷ more)
        ≡ ((connect_bootstrap parse connect good).0, false)
  unfolding connect_bootstrap
  bootstrap_stops [] more bad e = parsed_stops (parse bad) (connect_bootstrap parse connect more) e
  bootstrap_stops (g ∷ good) more bad e =
      ap (connect_parsed parse connect (parse g)) (bootstrap_stops good more bad e)
      ∙ parsed_keeps (parse g) (connect_bootstrap parse connect good)
