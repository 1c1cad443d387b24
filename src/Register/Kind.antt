-- ===== src/Register/Kind.antt =====
-- enum wlmio_register_value of src/libwlmio/wlmio.h.
use libwlmio.Prelude.{ℕ}

abbrev pub empty : ℕ
empty = 0

abbrev pub string : ℕ
string = 1

abbrev pub unstructured : ℕ
unstructured = 2

abbrev pub bit : ℕ
bit = 3

abbrev pub int64 : ℕ
int64 = 4

abbrev pub int32 : ℕ
int32 = 5

abbrev pub int16 : ℕ
int16 = 6

abbrev pub int8 : ℕ
int8 = 7

abbrev pub uint64 : ℕ
uint64 = 8

abbrev pub uint32 : ℕ
uint32 = 9

abbrev pub uint16 : ℕ
uint16 = 10

abbrev pub uint8 : ℕ
uint8 = 11

abbrev pub float64 : ℕ
float64 = 12

abbrev pub float32 : ℕ
float32 = 13

abbrev pub float16 : ℕ
float16 = 14
