-- ===== src/Lib.antt =====
-- Magic Lantern: an add-on for the firmware of a Canon camera. It starts its own tasks beside the
-- firmware's and hooks the menu, the properties and the lens. The parts that are modelled meet as
-- follows: the configuration file is read at start-up into variables (config.c) that the other
-- parts own, such as the timeout of the menu and the settings of the bracketing; the menu (menu.c)
-- calls the functions of the entries that the parts have added, which change these variables and
-- wake the tasks of the bracketing (bracket.c) and of the focus (focus.c), which send commands to
-- the lens; the GUI task (gui.c) turns the picture style button into the menu's semaphore; the
-- start-up code (init.c) patches a copy of the firmware, replaces its tasks and creates those of
-- the parts; the timecode decoder (timecode.c) is fed with samples of the audio input, whose
-- levels the meters show (audio.c); the overlays (zebra.c), the meters and the menu are drawn into
-- one bitmap memory (bmp.c).
--
-- The files, and the code each is about:
--
-- - Common: the native numbers with their Boolean tests, lists (Common/Lists), integers of the
--   source with a sign (Common/Int), 32-bit words (Common/Word), strings as lists of bytes
--   (Common/Text), a memory as a function with its writes and copies (Common/Memory), the ones
--   of numbers (Common/Bits), a screen in it (Common/Screen) and tests over a range
--   (Common/Range).
-- - Config (config.c): read_line, parse_name, config_parse_line, config_parse, config_save_file,
--   atoi, streq. A file is a list of bytes, a variable a record of a name, a kind and a value.
--   Config/Line and Config/Digits hold the lemmas on one line and on numbers, Config/RoundTrip
--   the file as a whole, Config/Values the variables after a file is read, Config/Overrun the
--   bound of the value buffer; Config/File is config_parse_file.
-- - Menu (menu.c, menu.h): menus and entries as records in a memory, a function from addresses,
--   with 0 for NULL; menu_find_by_name, menu_add, menu_move, menu_entry_move, menu_entry_select.
--   Menu/Links is the theory of doubly linked lists, Menu/Moves, Menu/Named and Menu/Added hold
--   the theorems on the operations. Menu/Handler is menu_handler, gui_stop_menu, gui_hide_menu
--   and one round of menu_task with the effects as lists; Menu/Handler/Timeout is about the
--   countdown. Menu/Display is menus_display.
-- - Lens (lens.c, lens.h): the lens data as a record, and the property handlers. Lens/Codes and
--   Lens/Reports are about these, Lens/Dof is calc_dof, Lens/Distance lens_format_dist,
--   Lens/Focus the focus command and its report, Lens/Picture lens_take_picture, Lens/Movie the
--   logfile of a movie.
-- - Bracket (bracket.c, and lens_get_ae of lens.h): the exposure loop of bracket_task as the
--   list of commands it sends, and the two settings.
-- - Boot (bootflags.c): the two toggles, and the strings in the boot block (Boot/Block).
-- - Focus (focus.c): focus_stack, rack_focus, the jog loop of focus_task, the menu operations
--   and the PTP focus operation, as the calls they make.
-- - Reloc (reloc.c): the copy of a firmware function with its branches and loads adapted, on a
--   memory of words. Reloc/Branch is about one branch, Reloc/Frame about what is written.
-- - Timecode (timecode.c): tc_sample and process_timecode. Timecode/Clock is about the pulse
--   lengths, Timecode/Bytes and Timecode/Frame about the bits and the frame, Timecode/Decode
--   about the time, Timecode/Bounds about the buffer.
-- - Audio (audio.c, color_word of bmp.h): the levels of a channel and the decibels; Audio/Levels
--   is about their range. Audio/Meter is draw_meter and draw_ticks on a memory of words,
--   Audio/Meter/Drawn what they show. Audio/Codec is audio_configure on a codec that is known by
--   how it answers; Audio/Codec/Presses and Audio/Codec/Chosen are the entries of the menu,
--   Audio/Codec/Registers the parts of a configuration and Audio/Codec/Settled the registers
--   after it.
-- - Bitmap (bmp.c, bmp.h, font.h): bmp_fill on a memory of bytes (Bitmap/Fill),
--   canon_char_lookup (Bitmap/Font), canon_char_draw (Bitmap/Glyph), bmp_hexdump
--   (Bitmap/Hexdump), bmp_puts as the glyphs that it places (Bitmap/Layout), bmp_load with its
--   buffers (Bitmap/Load).
-- - Zebra (zebra.c): hist_build and the bars (Zebra/Histogram; Zebra/Histogram/Counted is about
--   what is counted), edge_detect (Zebra/Edge), the overlay of a pair of pixels (Zebra/Overlay)
--   and a pass of draw_zebra over the screen (Zebra/Overlay/Pass). Zebra/Picture is
--   hist_draw_image and waveform_draw_image on the bitmap memory of Bitmap; Zebra/Picture/Bars
--   and Zebra/Picture/Mirror are about what they show; Zebra/Task is the task with the reports
--   that switch it.
-- - Firmware (decrypt-block.c, dissect_fw.c, pack-fir.c): the cipher and the filter of a stream,
--   with the tables in Firmware/Tables; Firmware/Offsets is about the offsets, Firmware/Stream
--   about the bytes. Firmware/Pack is the file that pack-fir puts together,
--   Firmware/Pack/Checksum is about its checksums and Firmware/Pack/Placed about its table.
--   Firmware/Dissect is dissect_fw.c.
-- - Stdio (stdio.c): strtol, strtoul (strto_l in its steps) and realloc (Stdio/Realloc).
--   Stdio/Digits and Stdio/Numbers are about the number that a text stands for, Stdio/Printed
--   about the digits of a number.
-- - Gui (gui.c): my_gui_main_task as a list of rounds, with its calls as a list; Gui/Rounds is
--   about a run.
-- - Init (init.c, property.c, arm-mcr.h): copy_and_restart (Init/Restart; Init/Restart/Image is
--   about the image), my_task_dispatch_hook (Init/Hook), prop_startup_handler, my_init_task,
--   prop_handler_init and prop_init (Init/Startup); Init/Started is about the reports of the
--   start-up property.
-- - Ptp (ptp.c): the handlers of the four requests, with the messages that they send.
-- - Spotmeter (spotmeter.c): a round of the task; Spotmeter/Mean is about the measurement.
-- - Debug (debug.c): the list of debug_init, set_vbr, the countdowns of movie_start and
--   dump_task; Debug/Watched is about these.
-- - Script (script.c): run_script and list_files as calls.
-- - Dumper (dumper.c): main, as its calls.
--
-- Machine integers: `unsigned` is a number below 2 ^ 32, reduced where the source computes; `int`
-- is an integer whose wrap-around is written out where the values can reach it, and plain where
-- the code's own guards bound it (an overflow that C leaves undefined is taken to wrap round, in
-- focus_task and rack_focus; the theorems ask for values that do not reach it).
--
-- Fuel: rack_focus has |delta| + 1 and the exposure loop of a bracket ae_count + 2 rounds, the
-- reading of a file one round for each byte and one more; the theorems show that this is enough.
-- reloc has a round for each instruction and one more, which is enough where the addresses stay
-- below 2^32. The walks along the linked lists of the menu take the fuel as an argument, and the
-- theorems ask for as much as the list is long.
--
-- Not modelled: semaphores and tasks are the firmware's, their outcome is an argument or an event;
-- the text of messages and menus; the allocation of memory, whose result is an argument. The live
-- view hooks (liveview.c), the boot loader (reboot.c), the hotplug task (hotplug.c, which returns
-- before its loop), the formatted output of stdio.c, and the displays of debug.c have no model.
-- The directory lua/ is a copy of the Lua interpreter, and pymite-plat.c glue to one for Python,
-- which the repository does not contain.
pub mod Common
pub mod Audio
pub mod Bitmap
pub mod Boot
pub mod Bracket
pub mod Debug
pub mod Dumper
pub mod Firmware
pub mod Focus
pub mod Gui
pub mod Init
pub mod Lens
pub mod Menu
pub mod Ptp
pub mod Reloc
pub mod Script
pub mod Spotmeter
pub mod Stdio
pub mod Timecode
pub mod Config
pub mod Zebra
