-- ===== src/TestStr/Tests.antt =====
-- Strings that `test_str` gives, and its theorem at one.
use udt_patch_for_epoll.Prelude.{◌≡◌, refl, some, [], ◌∷◌, length, arith}
use udt_patch_for_epoll.SendMsgBuf.{Bytes}
use udt_patch_for_epoll.TestStr.{fill, fill_up, test_str}
use udt_patch_for_epoll.TestStr.Size.{length-test_str}

-- "adf"
abbrev adf : Bytes
adf = 97 ∷ 100 ∷ 102 ∷ []

-- "adf:567890123", where the comment in test_util.h has "adfa:67890123".
short_string :
    test_str adf 13 ≡ some (97 ∷ 100 ∷ 102 ∷ 58 ∷ 53 ∷ 54 ∷ 55 ∷ 56 ∷ 57 ∷ 48 ∷ 49 ∷ 50 ∷ 51 ∷ [])
unfolding test_str fill_up fill
short_string = refl

length-test_str_example : (s : Bytes) × (test_str adf 45 ≡ some s) × (length s ≡ 45)
length-test_str_example = length-test_str adf 45 (omega arith)
