-- ===== src/MemBuffer.antt =====
-- `class MemBuffer` (librcom/src/MemBuffer.cpp). Its array of bytes is a list; `put`, `append` and
-- `clear` are the operations of lists.
use librcom.Base.{
  All, ◌≡◌, ◌≢◌, false, refl, sym, ap, ◌∙◌, append-nil, arith, ℕ, ◌+◌, ◌*◌, zero, suc, Option, none,
  some, [], ◌∷◌, ◌++◌, ◌==◌, if◌then◌else◌, Bytes,
}

-- What `c_str` shows to the functions of C: the text up to the first zero.
unfoldable pub c_str : Bytes → Bytes
c_str [] = []
c_str (c ∷ cs) = let rest = c_str cs in if c == 0 then [] else c ∷ rest

-- `strnlen`
unfoldable pub strnlen : Bytes → ℕ → ℕ
strnlen cs zero = 0
strnlen [] (suc limit) = 0
strnlen (c ∷ cs) (suc limit) = let rest = strnlen cs limit in if c == 0 then 0 else suc rest

abbrev pub kb_32 : ℕ
kb_32 = 32 * 1024

-- `none` where it throws.
unfoldable pub append_string_32k_max : Bytes → Bytes → Option Bytes
append_string_32k_max string buffer =
    if strnlen string (kb_32 + 1) == kb_32 + 1 then none else some (buffer ++ c_str string)

-- `printf`, given the text that the format makes: `vprintf` takes it up to its first zero.
unfoldable pub printf : Bytes → Bytes → Bytes
printf formatted buffer = buffer ++ c_str formatted

-- A text without a zero passes whole.
pub c_str_append :
    (text rest : Bytes) → All (λ c. c ≢ 0) text → c_str (text ++ rest) ≡ text ++ c_str rest
unfolding c_str
c_str_append [] rest h = refl
c_str_append (c ∷ text) rest h =
    let nonzero : (c == 0) ≡ false = (let differs = h.0 in ground arith) in
    rw nonzero (ap (◌∷◌ c) (c_str_append text rest h.1))

pub c_str_id : (text : Bytes) → All (λ c. c ≢ 0) text → c_str text ≡ text
unfolding c_str
c_str_id text h = ap c_str (sym (append-nil text)) ∙ c_str_append text [] h ∙ append-nil text
