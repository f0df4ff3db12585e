-- ===== src/Tests/Toy.antt =====
-- A small platform: MessagePack with one number per value and strings behind their length, a flash
-- memory with pages of eight bytes, and a sum as the checksum.
use cvra_bootloader.Prelude.{
  ℕ, ◌+◌, ◌-◌, refl, Bool, true, false, ◌&&◌, List, [], ◌∷◌, Option, none, some, arith, leb, ltb,
  if◌then◌else◌, length, take, drop, set, get_elem?,
}
use cvra_bootloader.Prelude.Words.{u32}
use cvra_bootloader.Platform.{Cmp, FlashWriter, Layout, Platform}
use cvra_bootloader.Config.{Config}
use cvra_bootloader.Timer.{Timer}
use cvra_bootloader.Command.{Locals}
use cvra_bootloader.Datagram.{Datagram, state_protocol_version}
use cvra_bootloader.Datagram.Wire.{Message, IsWellFormed, Fits}
use cvra_bootloader.Bootloader.{Board, Node}
use cvra_bootloader.Command.Protection.{Confines}
use cvra_bootloader.Command.PowerCut.{Apart, Separate}

pub record Cursor : Type 0 where
  pub mem : List ℕ
  pub pos : ℕ

abbrev pub next : Cursor → Option ℕ × Cursor
next c = (get_elem? c.mem c.pos, record c { pos = c.pos + 1 })

abbrev pub put : Cursor → ℕ → Cursor
put c v = record { mem = set c.mem c.pos v; pos = c.pos + 1 }

abbrev pub put_all : Cursor → List ℕ → Cursor
put_all c [] = c
put_all c (x ∷ xs) = put_all (put c x) xs

abbrev pub next_str : Cursor → List ℕ → ℕ → List ℕ × ℕ × Cursor
next_str c buf size = elim (get_elem? c.mem c.pos) [
  | none ↦ (buf, size, c)
  | some n ↦ (take n (drop (c.pos + 1) c.mem), n, record c { pos = c.pos + 1 + n })
]

abbrev pub toy_cmp : Cmp
toy_cmp = record {
  Ctx = Cursor;
  ro_init = λ mem n. record { mem = mem; pos = 0 };
  init = λ mem n. record { mem = mem; pos = 0 };
  get_pos = λ c. c.pos;
  memory = λ c. c.mem;
  read_uinteger = λ c. next c;
  read_uint = λ c. next c;
  read_u32 = λ c. next c;
  read_uchar = λ c. next c;
  read_int = λ c. next c;
  read_array = λ c. next c;
  read_map = λ c. next c;
  read_bin_size = λ c. next c;
  read_str = λ c buf size. next_str c buf size;
  write_uint = λ c v. put c v;
  write_u8 = λ c v. put c v;
  write_bool = λ c v. put c v;
  write_bin = λ c bytes. put_all (put c (length bytes)) bytes;
  write_str = λ c bytes. put_all (put c (length bytes)) bytes;
  write_map = λ c n. put c n;
}

abbrev pub within : ℕ → ℕ → ℕ → Bool
within a n x = leb a x && ltb x (a + n)

abbrev pub byte_or : Option ℕ → ℕ
byte_or none = 0
byte_or (some v) = v

abbrev pub erased : (ℕ → ℕ) → ℕ → ℕ → ℕ
erased f a x = if within a 8 x then 0xff else f x

abbrev pub programmed : (ℕ → ℕ) → ℕ → List ℕ → ℕ → ℕ
programmed f a bytes x =
    if within a (length bytes) x then byte_or (get_elem? bytes (x - a)) else f x

abbrev pub toy_writer : FlashWriter
toy_writer = record {
  Flash = ℕ → ℕ;
  byte_at = λ f x. f x;
  unlock = λ f. f;
  lock = λ f. f;
  page_erase = λ f a. erased f a;
  page_write = λ f a bytes. programmed f a bytes;
}

abbrev pub toy_layout : Layout
toy_layout = record {
  app_addr = 32;
  app_size = 32;
  config1_addr = 8;
  config2_addr = 16;
  config_page_size = 8;
  flash_begin = 0;
  flash_end = 100;
  erase_retries = 2;
}

abbrev pub total : List ℕ → ℕ
total [] = 0
total (x ∷ xs) = x + total xs

abbrev pub toy : Platform
toy = record {
  crc32 = λ crc bytes. u32 (crc + total bytes);
  cmp = toy_cmp;
  flash_writer = toy_writer;
  layout = toy_layout;
}

pub toy-Confines : Confines toy 8
toy-Confines = record {
  unlock_same = λ s x l. refl;
  lock_same = λ s x l. refl;
  erase_same = λ s a h x l. ground arith;
  write_same = λ s a bytes h x l. ground arith;
}

apart12 : Apart toy 8 16
apart12 = record {
  erase_apart = λ s i l. ground arith;
  write_apart = λ s bytes h i l. ground arith;
}

apart21 : Apart toy 16 8
apart21 = record {
  erase_apart = λ s i l. ground arith;
  write_apart = λ s bytes h i l. ground arith;
}

pub toy-Separate : Separate toy
toy-Separate = record {
  apart12 = apart12;
  apart21 = apart21;
  unlock_same = λ s a. refl;
  lock_same = λ s a. refl;
}

abbrev pub blank_flash : ℕ → ℕ
blank_flash x = 0xff

abbrev pub config : Config
config = record {
  id = 5;
  board_name = 98 ∷ 0 ∷ [];
  device_class = 97 ∷ 0 ∷ [];
  application_crc = 0;
  application_size = 0;
  update_count = 1;
  bootloader_commit = 0 ∷ [];
  bootloader_version = 0 ∷ [];
}

abbrev pub locals : Locals
locals = record { number = 0; text = 0 ∷ 0 ∷ 0 ∷ 0 ∷ [] }

abbrev pub timer : Timer
timer = record {
  bootloader_timeout_start_ms = 0;
  bootloader_timeout_ms = 100;
  datagram_timeout_start_ms = 0;
  datagram_timeout_ms = 10;
}

abbrev pub board : Board
board = record {
  platform_device_class = 97 ∷ 0 ∷ [];
  platform_default_name = 98 ∷ 0 ∷ [];
  platform_default_id = 1;
  bootloader_commit = 0 ∷ [];
  bootloader_version = 0 ∷ [];
  input_buffer_size = 4;
  output_buffer_size = 8;
  led_success = 1;
  led_error = 2;
}

-- A reader with room for three addresses and four bytes.
abbrev pub reader : Datagram
reader = record {
  protocol_version = 1;
  crc = 0;
  destination_nodes_len = 0;
  destination_nodes = 0 ∷ 0 ∷ 0 ∷ [];
  data_len = 0;
  data_buffer = 0 ∷ 0 ∷ 0 ∷ 0 ∷ [];
  crc_bytes_read = 0;
  crc_bytes_written = 0;
  data_length_bytes_read = 0;
  data_length_bytes_written = 0;
  destination_nodes_read = 0;
  destination_nodes_written = 0;
  data_bytes_read = 0;
  data_bytes_written = 0;
  data_buffer_size = 4;
  reader_state = state_protocol_version;
  writer_state = state_protocol_version;
}

abbrev pub node : Node toy
node = record {
  config = config;
  dt = reader;
  output_buf = 0 ∷ 0 ∷ 0 ∷ 0 ∷ 0 ∷ 0 ∷ 0 ∷ 0 ∷ [];
  bootloader_timeout_enabled = true;
  datagram_timeout_running = false;
  flash = blank_flash;
  status = 0;
  timer = timer;
  sent = [];
  leds = [];
}

-- A ping to node 5: the version of the command set, the index, and no arguments.
abbrev pub message : Message
message = record { version = 1; checksum = 17; nodes = 5 ∷ []; bytes = 3 ∷ 5 ∷ 0 ∷ [] }

pub message-IsWellFormed : IsWellFormed message
message-IsWellFormed = record {
  header = record {
    version_byte = omega arith;
    checksum_word = omega arith;
    some_node = omega arith;
    nodes_byte = omega arith;
    bytes_word = omega arith;
  };
  some_byte = omega arith;
}

pub message-Fits : Fits message reader
message-Fits = record {
  nodes_fit = omega arith;
  bytes_fit = omega arith;
  bytes_allowed = omega arith;
}
