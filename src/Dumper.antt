-- ===== src/Dumper.antt =====
-- dumper.c, the program that saves the ROMs of the camera on the card, as the calls that it makes.
mod Tests
use magic_lantern.Common.{
  ℕ, zero, suc, ◌+◌, ◌*◌, ◌≡◌, ◌≢◌, refl, ap, ◌∙◌, Bool, true, false, not, ◌||◌, Bool-cases, inl,
  inr, Option, none, some, List, [], ◌∷◌, ◌++◌, arith, ◌==◌, if◌then◌else◌,
}
use mathlib.Core.Option

pub data File : Type 0 where
  rom0_log : File
  rom0_bin : File
  rom1_bin : File

pub data Call : Type 0 where
  open_file : File → Call
  creat : File → Call
  close : File → Call
  -- A write of so many bytes from an address, to a file that may not be there.
  write : File → ℕ → ℕ → Call
  -- Four bytes for the logfile: a line of the source, the model, or a register.
  log_line : ℕ → Call
  log_model : ℕ → Call
  log_register : ℕ → ℕ → ℕ → Call
  shutdown : Call
  abort_firmup1 : Call
  abort_firmup2 : Call
  reboot_icu : ℕ → Call

-- Whether `open` and `creat` give a handle, for each file.
pub record Card : Type 0 where
  pub log_opens : Bool
  pub log_creates : Bool
  pub rom0_opens : Bool
  pub rom0_creates : Bool
  pub rom1_opens : Bool
  pub rom1_creates : Bool

abbrev pub opens : Card → File → Bool
opens card rom0_log = card.log_opens
opens card rom0_bin = card.rom0_opens
opens card rom1_bin = card.rom1_opens

abbrev pub creates : Card → File → Bool
creates card rom0_log = card.log_creates
creates card rom0_bin = card.rom0_creates
creates card rom1_bin = card.rom1_creates

-- The handle is valid in the end.
abbrev pub is_there : Card → File → Bool
is_there card file = opens card file || creates card file

-- `LOG()`
unfoldable pub log : Bool → ℕ → List Call
log has_log line = if has_log then log_line line ∷ [] else []

-- The opening of a file for a ROM, with the two lines that are logged on the way.
unfoldable pub open_rom : Bool → Card → File → ℕ → ℕ → List Call
unfolding log
open_rom has_log card file line1 line2 =
    (open_file file ∷ [])
    ++ (if opens card file then [] else log has_log line1 ++ (creat file ∷ []))
    ++ (if is_there card file then [] else log has_log line2 ++ (shutdown ∷ []))

abbrev pub rom0_start : ℕ
rom0_start = 0xF8000000

abbrev pub rom0_size : ℕ
rom0_size = 0x7FFFF0

abbrev pub rom1_start : ℕ
rom1_start = 0xF0000000

abbrev pub rom1_size : ℕ
rom1_size = 0x800000

-- The registers of the coprocessor that are logged.
abbrev pub registers : List Call
registers =
    log_register 1 0 0
    ∷ log_register 2 0 0
    ∷ log_register 2 0 1
    ∷ log_register 3 0 0
    ∷ log_register 3 0 1
    ∷ log_register 5 0 2
    ∷ log_register 5 0 3
    ∷ log_register 6 0 0
    ∷ log_register 6 1 0
    ∷ log_register 6 2 0
    ∷ log_register 6 3 0
    ∷ log_register 6 4 0
    ∷ log_register 6 5 0
    ∷ log_register 6 6 0
    ∷ log_register 6 7 0
    ∷ log_register 9 0 0
    ∷ log_register 9 0 1
    ∷ log_register 9 1 0
    ∷ log_register 9 2 1
    ∷ []

-- From the opening of the logfile on. `shutdown` is a call like the others: where it returns, the code goes on.
unfoldable pub dump : ℕ → Card → List Call
unfolding open_rom log
dump model_id card =
    let has_log = is_there card rom0_log in
    (open_file rom0_log ∷ [])
    ++ (if opens card rom0_log then [] else creat rom0_log ∷ [])
    ++ (if has_log then [] else shutdown ∷ [])
    ++ (log_model model_id ∷ [])
    ++ open_rom has_log card rom0_bin 127 132
    ++ (write rom0_bin rom0_start rom0_size ∷ close rom0_bin ∷ [])
    ++ open_rom has_log card rom1_bin 150 155
    ++ log has_log 159
    ++ (write rom1_bin rom1_start rom1_size ∷ close rom1_bin ∷ log_register 0 0 0 ∷ [])
    ++ log has_log 210
    ++ registers
    ++ log has_log 236
    ++ (abort_firmup1 ∷ [])
    ++ log has_log 238
    ++ (abort_firmup2 ∷ [])
    ++ log has_log 240
    ++ (reboot_icu 0x80010003 ∷ [])
    ++ log has_log 243
    ++ log has_log 245
    ++ (close rom0_log ∷ [])

-- `main`; `none`: on another camera the program hangs.
unfoldable pub main : ℕ → Card → Option (List Call)
unfolding dump
main model_id card = if not (model_id == 0x80000218) then none else some (dump model_id card)

-- The places and sizes that are written to the files of the ROMs.
unfoldable pub saved : List Call → List (File × ℕ × ℕ)
saved [] = []
saved (write file start size ∷ l) = (file, start, size) ∷ saved l
saved (_ ∷ l) = saved l

unfoldable pub shutdowns : List Call → ℕ
shutdowns [] = 0
shutdowns (shutdown ∷ l) = suc (shutdowns l)
shutdowns (_ ∷ l) = shutdowns l

-- On the right camera, whatever can be opened or created, both ROMs are written once, ROM0 without its last 16 bytes; and
-- the camera is shut down exactly once for each of the three files that is not there.
pub main-saved :
    (card : Card)
    → (Option.map saved (main 0x80000218 card)
        ≡ some ((rom0_bin, rom0_start, rom0_size) ∷ (rom1_bin, rom1_start, rom1_size) ∷ []))
      × (Option.map shutdowns (main 0x80000218 card)
          ≡ some (
              (if is_there card rom0_log then 0 else 1)
              + (if is_there card rom0_bin then 0 else 1)
              + (if is_there card rom1_bin then 0 else 1)))
unfolding main dump open_rom log saved shutdowns
main-saved card = ground arith
