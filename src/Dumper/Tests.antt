-- ===== src/Dumper/Tests.antt =====
-- A card on which the second ROM cannot be saved, and another camera.
use mathlib.Core.Option
use magic_lantern.Common.{◌≡◌, refl, true, false, none, some}
use magic_lantern.Dumper.{Card, log, open_rom, dump, main, shutdowns}

abbrev full_card : Card
full_card = record {
  log_opens = false;
  log_creates = true;
  rom0_opens = true;
  rom0_creates = true;
  rom1_opens = false;
  rom1_creates = false;
}

one_shutdown : Option.map shutdowns (main 0x80000218 full_card) ≡ some 1
unfolding main dump open_rom log shutdowns
one_shutdown = refl

other_camera : main 0x80000219 full_card ≡ none
unfolding main
other_camera = refl
