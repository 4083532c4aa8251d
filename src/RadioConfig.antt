-- ===== src/RadioConfig.antt =====
-- The radio's record: firmware/radio/radio_config.h, firmware/radio/radio_config.c and, in
-- RadioConfig/Flash, firmware/radio/radio_provision_flash.c. A pointer with a length is the list of
-- the bytes from it on; a string is the list of its bytes before the closing zero.
pub mod Pieces
pub mod RoundTrip
pub mod Accepted
pub mod Flash
mod Tests
use picobridge.Prelude.{
  ℕ, ◌+◌, ◌-◌, Bool, true, false, not, ◌&&◌, Option, none, some, List, [], ◌∷◌, ◌++◌, length, take,
  drop, leb, ◌==◌, if◌then◌else◌, replicate, u32, bit_xor,
}
use picobridge.Prelude.Text.{codes}
use picobridge.DhcpWire.{same_bytes}
use picobridge.ControllerStore.Memory.{le_bytes, le_value}
use picobridge.ControllerStore.Store.{crc_loop}

abbrev pub radio_sector_size : ℕ
radio_sector_size = 4096

-- `struct radio_config`. The arrays of 33 and 64 bytes hold the strings, with zeros behind them.
pub record Config : Type 0 where
  pub ssid : List ℕ
  pub psk : List ℕ
  pub cert : List ℕ
  pub key : List ℕ

unfoldable pub le16 : List ℕ → ℕ → ℕ
le16 s i = le_value (take 2 (drop i s))

-- The lengths `a`, `b`, `c` and `d`, `total` and the CRC that a sector stores.
pub record Fields : Type 0 where
  pub ssid_len : ℕ
  pub psk_len : ℕ
  pub cert_len : ℕ
  pub key_len : ℕ
  pub total : ℕ
  pub stored : ℕ

unfoldable pub read_fields : List ℕ → Fields
unfolding le16
read_fields s = record {
  ssid_len = le16 s 16;
  psk_len = le16 s 18;
  cert_len = le16 s 20;
  key_len = le16 s 22;
  total = le16 s 10;
  stored = le_value (take 4 (drop 12 s));
}

-- What tells the two kinds of record apart.
pub record Schema : Type 0 where
  pub magic : List ℕ
  pub number : ℕ
  pub psk_min : ℕ
  pub certs_mandatory : Bool

abbrev pub schema_1 : Schema
schema_1 = record {
  magic = codes "PBRAD01" ++ 0 ∷ [];
  number = 1;
  psk_min = 20;
  certs_mandatory = true;
}

abbrev pub schema_2 : Schema
schema_2 = record {
  magic = codes "PBRAD02" ++ 0 ∷ [];
  number = 2;
  psk_min = 8;
  certs_mandatory = false;
}

unfoldable pub header_ok : Schema → List ℕ → Bool
unfolding le16
header_ok schema s =
    length s == radio_sector_size && same_bytes (take 8 s) schema.magic && le16 s 8 == schema.number

unfoldable pub certs_ok : Bool → Fields → Bool
certs_ok true f = leb 1 f.cert_len && leb f.cert_len 2048 && leb 1 f.key_len && leb f.key_len 1024
certs_ok false f =
    leb f.cert_len 2048
    && leb f.key_len 1024
    && (if f.cert_len == 0 then f.key_len == 0 else not (f.key_len == 0))

-- The tests on the lengths.
unfoldable pub lengths_ok : Schema → Fields → ℕ → Bool
lengths_ok schema f n =
    leb 1 f.ssid_len
    && leb f.ssid_len 32
    && leb schema.psk_min f.psk_len
    && leb f.psk_len 63
    && certs_ok schema.certs_mandatory f
    && leb (24 + f.ssid_len + f.psk_len + f.cert_len + f.key_len) n
    && f.total == 24 + f.ssid_len + f.psk_len + f.cert_len + f.key_len
    && leb f.total n

-- Every byte is between 32 and 126.
unfoldable pub all_printable : List ℕ → Bool
all_printable [] = true
all_printable (b ∷ bytes) = leb 32 b && leb b 126 && all_printable bytes

-- Every byte is that of erased flash.
unfoldable pub all_erased : List ℕ → Bool
all_erased [] = true
all_erased (b ∷ bytes) = b == 255 && all_erased bytes

-- The tests on the bytes behind the header.
unfoldable pub contents_ok : Fields → List ℕ → Bool
contents_ok f s =
    all_printable (take (f.ssid_len + f.psk_len) (drop 24 s))
    && all_erased (drop f.total s)
    && u32 (bit_xor (crc_loop 0xffffffff (take (f.total - 16) (drop 16 s))) 0xffffffff) == f.stored

unfoldable pub read_config : Fields → List ℕ → Config
read_config f s = record {
  ssid = take f.ssid_len (drop 24 s);
  psk = take f.psk_len (drop (24 + f.ssid_len) s);
  cert = take f.cert_len (drop (24 + f.ssid_len + f.psk_len) s);
  key = take f.key_len (drop (24 + f.ssid_len + f.psk_len + f.cert_len) s);
}

unfoldable pub parse_common : Schema → List ℕ → Option Config
parse_common schema s =
    let f = read_fields s in
    if not (header_ok schema s)
    then none
    else if not (lengths_ok schema f (length s))
    then none
    else if not (contents_ok f s)
    then none
    else some (read_config f s)

abbrev pub parse : List ℕ → Option Config
parse s = parse_common schema_1 s

abbrev pub parse2 : List ℕ → Option Config
parse2 s = parse_common schema_2 s

unfoldable pub inputs_ok : List ℕ → List ℕ → Bool
inputs_ok ssid psk =
    leb 1 (length ssid)
    && leb (length ssid) 32
    && leb 8 (length psk)
    && leb (length psk) 63
    && all_printable ssid
    && all_printable psk

-- `lens`: the four lengths as the record stores them.
unfoldable pub lens : List ℕ → List ℕ → List ℕ
lens ssid psk = le_bytes 2 (length ssid) ++ le_bytes 2 (length psk) ++ (0 ∷ 0 ∷ 0 ∷ 0 ∷ [])

-- The CRC, over the lengths, the ssid and the psk in turn.
unfoldable pub build_crc : List ℕ → List ℕ → ℕ
build_crc ssid psk =
    u32 (bit_xor (crc_loop (crc_loop (crc_loop 0xffffffff (lens ssid psk)) ssid) psk) 0xffffffff)

-- The sector image: its header, the strings and erased bytes up to the end.
unfoldable pub image_of : List ℕ → List ℕ → List ℕ
image_of ssid psk =
    schema_2.magic
    ++ (le_bytes 2 2
        ++ (le_bytes 2 (24 + length ssid + length psk)
            ++ (le_bytes 4 (build_crc ssid psk)
                ++ (lens ssid psk
                    ++ (ssid
                        ++ (psk
                            ++ replicate (radio_sector_size - (24 + length ssid + length psk))
                                255))))))

unfoldable pub build2 : List ℕ → List ℕ → Option (List ℕ)
build2 ssid psk = if inputs_ok ssid psk then some (image_of ssid psk) else none
