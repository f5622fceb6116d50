-- ===== src/Lib.antt =====
-- The Homebrew Channel, the program that starts other programs on the Wii: its core in C, under
-- channel/channelapp/source.
--
-- How the parts work together. The thread of appentry.c mounts a storage device and fills the table
-- of applications, which the browser shows. The threads of loader.c wait for an upload over TCP or
-- over a USB Gecko. An application, from the device or from the network, is loaded into blocks of
-- blob.c, and loader_reloc.c moves its sections to their addresses, patches its start-up code and
-- sets its arguments. The browser shows its pages as a view with a focus. The thread of http.c
-- fetches one file at a time over TCP; update.c asks it for a new version
-- of the channel, which loader_reloc.c then starts; wiiload is the program on a PC that sends an
-- upload.
--
-- The files:
--   Base                  the libraries' names, Boolean tests, lists over the native numbers, u32
--   Blob                  blob.c: blob_alloc, blob_free, over an interface for the arena registers;
--                         Blocks has the abstract stack, Refined that the code follows it
--   Memory                a byte memory with 16 and 32 bit accesses and memmove, as the loader uses
--                         it; Memory.Frame says which bytes an operation leaves alone
--   Reloc                 loader_reloc.c with the bounds of config.h: Area (the overlap test), Dol
--                         (reloc_dol), Elf (is_valid_elf, reloc_elf), Run (loader_reloc)
--   Tcp                   tcp.c: Transfer (tcp_read, tcp_write), Line (tcp_readln)
--   Apps                  appentry.c: Text (strcasecmp), Entry (app_entry_load_single), Order
--                         (cmp_app_entry), Table (the table and its operations)
--   Devices               appentry.c: the commands of ae_func and the functions around them
--   Loader                loader.c: Request (the 16 bytes that open an upload), Threads (ld_gecko_func,
--                         ld_tcp_func and the calls around them), Receive (ld_load_func), Load
--                         (loader_load)
--   Http                  http.c: Url (http_split_url), Fetch (the thread and the calls of its client)
--   Wiiload               channel/wiiload/main.c, the sender on the other side: Send (send_tcp), Args and
--                         Main (main)
--   View                  view.c: the focus
--   Browser               browser.c: the pages of applications and the selected one
--   Update                update.c: the update check over the HTTP client
--
-- Each component has its state as a record and one function per operation of the source, under the
-- source's name; the children of a module hold its proofs, and Tests concrete runs.
--
-- Numbers. Addresses, sizes and counts are natural numbers; where the source computes in u32, the
-- definitions reduce by 2 ^ 32. Memory is a function from addresses to bytes.
--
-- Outside code. The system library, the network, the clock, the file system, the drivers, the C
-- library's qsort and the parsers of meta.xml and PNG files come in as parameters or as the fields
-- of a record, with the laws that the code relies on as named hypotheses. A loop around a clock and
-- a device takes one element of a list, its schedule, per round: the loops recurse on the schedule,
-- and where it is too short the result says that the loop still waits. Two loops have fuel: that
-- of wiiload over blocks, the number of bytes, of which each round takes one at least; and that of
-- reloc_elf over the program headers, 2 ^ 16, which no number of 16 bits exceeds
-- (Reloc.Elf.Rounds).
--
-- Threads. A thread holds its lock while it works, so each command that it serves is one step, and
-- so is each call of another thread: a relation on states, with the states reachable by it. Races
-- between a step and an access that takes no lock are not modelled.
--
-- Not modelled: drawing (widgets, dialogs, fonts, textures, themes), and of the pointer all but
-- what it does to the focus, where the widget that it hits is given for each frame;
-- unpacking of ZIP archives, XML, NAND and title access, the stub,
-- wiipax and the banner tools. SHA-1, minizip, LZMA, the line reader and the stub's C library are
-- copies of other projects; ecdsa.c is commented out as a whole.
pub mod Base
pub mod Apps
pub mod Blob
pub mod Browser
pub mod Devices
pub mod Http
pub mod Loader
pub mod Memory
pub mod Reloc
pub mod Tcp
pub mod Update
pub mod View
pub mod Wiiload
