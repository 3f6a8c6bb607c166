-- ===== src/TestStr.antt =====
-- server_udt/test_util.cpp (the files of the same name in client, client_epoll and utest_server are
-- the same): the generator of test messages of a given length. A character is its code.
pub mod Size
mod Tests
use udt_patch_for_epoll.Prelude.{
  ℕ, zero, suc, ◌+◌, ◌-◌, ◌/◌, ◌%◌, Bool, true, false, Option, none, some, List, [], ◌∷◌, ◌++◌, ltb,
  leb, if◌then◌else◌, length, take,
}
use udt_patch_for_epoll.SendMsgBuf.{Bytes}

-- What `<<` writes of a number: its digits. A `size_t` has at most twenty.
unfoldable pub digits : ℕ → ℕ → Bytes
digits zero n = []
digits (suc fuel) n =
    let front = digits fuel (n / 10) in
    if ltb n 10 then (n + 48) ∷ [] else front ++ ((n % 10 + 48) ∷ [])

unfoldable pub decimal : ℕ → Bytes
decimal n = digits 20 n

-- The loops `for (i = ...; ...; ++i) str.push_back(char((i % 10) + 0x30))`: what they append in a
-- number of rounds from `i` on.
unfoldable pub fill : ℕ → ℕ → Bytes
fill zero i = []
fill (suc count) i = (i % 10 + 48) ∷ fill count (i + 1)

abbrev pub repeat : ℕ → ℕ → Bytes
repeat zero c = []
repeat (suc n) c = c ∷ repeat n c

-- `str.resize(n, c)`
unfoldable pub resize : Bytes → ℕ → ℕ → Bytes
resize str n c = take n str ++ repeat (n - length str) c

-- `for (size_t i = str.size() + 1; i <= str_len; ++i) ...`
unfoldable pub fill_up : Bytes → ℕ → Bytes
fill_up str str_len = str ++ fill (str_len - length str) (length str + 1)

-- The body of the while loop, which appends a block such as "(20_56789)".
unfoldable pub add_block : Bytes → Bytes
add_block str =
    let new_len = length str + 10 in
    let tmp = str ++ (40 ∷ decimal new_len ++ (95 ∷ [])) in
    (tmp ++ fill (new_len - (length tmp + 1)) (length tmp + 1)) ++ (41 ∷ [])

-- The while loop; none when the fuel is spent.
unfoldable pub add_blocks : ℕ → Bytes → ℕ → Option Bytes
add_blocks zero str str_len = none
add_blocks (suc fuel) str str_len =
    let rest = add_blocks fuel (add_block str) str_len in
    if leb (length str + 10) str_len then rest else some str

-- The last digits.
abbrev pub finish : Option Bytes → ℕ → Option Bytes
finish none str_len = none
finish (some str) str_len = some (if ltb (length str) str_len then fill_up str str_len else str)

-- `test_str`: each round of the loop adds to the string, which bounds the rounds.
unfoldable pub test_str : Bytes → ℕ → Option Bytes
test_str str_prefix str_len =
    let str = str_prefix ++ (58 ∷ []) in
    if leb str_len (length str)
    then some (resize str str_len 0)
    else if ltb str_len 20
    then some (fill_up str str_len)
    else finish (add_blocks (suc str_len) (resize str 10 61) str_len) str_len
