-- ===== src/Torrent/Tests.antt =====
-- Examples for the torrent.
use tulva.Prelude.{◌≡◌, refl, [], ◌∷◌, true, replicate}
use tulva.Prelude.Int.{pos, negsuc, ◌-ℤ◌}
use tulva.Torrent.{Info, init, calc_bytes_left}

-- Two files of 3 and 4 bytes; the length of the info dictionary is not theirs.
abbrev album : Info
album = record {
  piece_length = 2;
  pieces = replicate 80 0;
  name = "album";
  length = 1;
  files = record { length = 3; path = "a" ∷ [] } ∷ record { length = 4; path = "b" ∷ [] } ∷ [];
}

-- `Init` sums them up.
album_length : (init album).length ≡ 7
unfolding init
album_length = refl

-- All four pieces are there, and a byte less than none is left.
nothing_left : calc_bytes_left (pos 7) 2 (replicate 4 true) ≡ negsuc 0
unfolding calc_bytes_left ◌-ℤ◌
nothing_left = refl
