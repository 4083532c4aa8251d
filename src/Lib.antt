-- ===== src/Lib.antt =====
-- picobridge: a keyboard that a paired controller types on. A controller stages a text over an
-- encrypted link, confirms it, and the board types it on the USB host as HID keystrokes.
--
-- Parts of the program and their files here. Paths are from the repository's root.
--
--   firmware/core/bridge_core.c, .h    BridgeCore
--     bridge_core_t, enumerations        BridgeCore/Types (Core, Status, State, Stroke, Ticket)
--     decode_utf8                        BridgeCore/Utf8
--     map_ascii, map_de                  BridgeCore/Keymap
--     bridge_core_init, _stage           BridgeCore/Stage (init, stage, its loop stage_loop)
--     bridge_core_confirm, _next,        BridgeCore/Control
--       _tick, _cancel, _abort
--     sequences of calls                 BridgeCore/Commands (Command, exec, run, strokes_of)
--   firmware/controller_store.c, .h    ControllerStore
--     limits, roles, slots, records      ControllerStore/Types, the layout in ControllerStore/Memory
--     record_valid, controller_store_    ControllerStore/Store (crc32 runs on the bytes)
--       boot, _initialise, _encode
--     controller_store_find, _is_admin,  ControllerStore/Admin
--       _add, _revoke
--     sequences of changes               ControllerStore/History (Change, history)
--   firmware/controller_store_flash.c  ControllerStore/Flash
--     program_sector                     preparing and program_sector, as lists of operations
--     controller_store_flash_commit      commit; target_of chooses the sector
--     controller_store_flash_boot_or_    boot_or_seed
--       seed
--   firmware/noise_ik.c, .h            NoiseIk
--     noise_ik_ctx_t, hashes and keys    NoiseIk (Session, mix_hash, mix_key, split_transport)
--     noise_ik_handshake_respond         NoiseIk/Handshake
--     noise_decrypt_packet,              NoiseIk/Transport
--       noise_encrypt_transport_ack
--   firmware/radio/radio_config.c, .h  RadioConfig (parse_common, build2)
--   firmware/radio/radio_provision_    RadioConfig/Flash (write_and_verify, read, clear)
--     flash.c
--   firmware/bridge_main.c             Bridge
--     static variables                   Bridge (Machine), Bridge/Hid (Usb)
--     ble_handle_stage and the other     Bridge/Handlers (handle_stage and so on)
--       handlers, ble_handle_
--       authenticated_command
--     command_process_frame,             Bridge/Frames (process_frame, handle_command, write, read)
--       ble_handle_command, the
--       characteristic's callbacks
--     HID callbacks, usb_hid_drain       Bridge/Hid
--     controller_setup,                  Bridge/Setup
--       ble_readvertise_poll
--   firmware/radio/http_parser.c, .h   HttpParser (radio_http_parse is http_parse)
--   firmware/usb_descriptors.c         UsbDescriptors
--   firmware/idle_main.c               IdleMain
--   firmware/radio/entropy_fill.c, .h  EntropyFill (entropy_fill, its loop fill_loop)
--   firmware/net_endpoint.c, .h        NetEndpoint
--     the TCP callbacks                  NetEndpoint (recv_cb, sent_cb, accept_cb, err_cb)
--     net_endpoint_start, _poll          NetEndpoint/Station
--     the queries and the scan           NetEndpoint/Queries
--   firmware/radio/dhcp_wire.c, .h     DhcpWire (radio_dhcp_parse is parse)
--   Beside these, BridgeCore/Typing states what a text types with no buffer in it,
--   BridgeCore/Utf8/Encode is the UTF-8 encoding, BridgeCore/Keymap/Hosts holds the legends and
--   the dead keys of the two keyboards, ControllerStore/Valid says when a store is trusted, DhcpWire/Header is
--   the fixed part of a DHCP message, and DhcpWire/Options lays out its options; these are the independent side of the theorems. The other files are proofs,
--   named for what they prove. Prelude holds Booleans, lists, words and bit masks on the native
--   numbers.
--
-- How code and model correspond. A function that updates `*core` takes the core and returns its
-- status with the new core. The ledger is the list of its first `replay_count` cells; `strokes`
-- is the whole array of 2048 cells. A buffer with an offset is the list of the bytes from the
-- offset on. Wiping writes zeros, as `wipe` does; that a compiler keeps those writes is not
-- modelled. A uint32_t keeps its wrap-around where the code subtracts or shifts (Prelude/Word).
-- The tests for a NULL core, a store, a key or an output buffer are left out; a NULL text or
-- sector is `none`. Layouts and modes stay numbers, since stage tests them.
--
-- Fuel. The staging loop runs on fuel for the number of bytes. Every round reads a byte at least,
-- so it ends with the bytes, and the theorems on stage speak of that loop's result.
--
-- The loop over DHCP options has fuel for the bytes, and each round reads a byte at least. The
-- loop over the pages of a sector has fuel for the bytes of the sector, and each round moves on
-- by a page.
--
-- Flash. The board's library is a parameter: the sizes, erasing a sector, programming a page.
-- What a call of flash_safe_execute does is an argument, Execution: by its documentation it runs
-- the function and returns PICO_OK, or it returns an error, when the function may not have been
-- called, or may have been called before the time ran out. The theorems assume of it what the board's
-- manual says: erasing sets every bit, programming clears bits, and a page holds a record. A loss
-- of power falls between two operations. The SRAM buffers of the code are not state here.
--
-- Cryptography. mbedTLS is a parameter (NoiseIk, Crypto): a function for each call, with `none` for
-- a call that fails. A step on the session that fails keeps what it has written. The pointer to the
-- controllers is an argument of the handshake, and the random key pair another, since
-- x25519_keypair is made of calls of mbedTLS.
--
-- Calls are serial: the code asks for a single scheduler, and a sequence of commands is a list.
--
-- The command channel. A handler takes the machine and returns its status with the new machine. What
-- the board answers during a call (a mounted host, what flash_safe_execute does, a random key pair, the
-- network's queries) is an argument, Bridge.World. A frame with its length is a list; bytes behind
-- its end are not state, and a text length that goes past it is refused by the core. The USB drain
-- takes what the host answers in each round of its loop, and the callbacks that tud_task runs in it,
-- so that it ends with those answers; the
-- core in Usb is the one in Machine.
--
-- The network. A pcb is a number, the space in lwIP's send buffer a function of the bytes that have
-- been sent, and the command core of the callbacks a parameter in the place of process_frame in
-- Bridge/Frames. Aborting a pcb is closing the session; that the code does so twice on one path is
-- not visible here. A poll takes what the driver answers and returns what it is asked for.
--
-- The loop of entropy_fill has fuel for the length and one more, and each round writes a byte at
-- least; without fuel there is no outcome, and the theorem on it says that there is one.
--
-- The HTTP parser's loops over an index have fuel for the length of the request, which each of their
-- rounds moves on in; HttpParser/Loops shows that it is enough.
--
-- Not modelled: the set-up of the BLE stack, its event handler and main in firmware/bridge_main.c;
-- the board's start in firmware/idle_main.c; build configuration and third-party stacks; the host
-- tools in Python.
pub mod Prelude
pub mod BridgeCore
pub mod ControllerStore
pub mod DhcpWire
pub mod NoiseIk
pub mod RadioConfig
pub mod Bridge
pub mod NetEndpoint
pub mod EntropyFill
pub mod HttpParser
pub mod UsbDescriptors
pub mod IdleMain
