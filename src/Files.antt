-- ===== src/Files.antt =====
-- crates/certael-agent/src/registry.rs, read_regular and write_new: a file as the system shows it.
use certael_agent.Text.{Bytes}
use certael_agent.Prelude.{
  ◌>>◌, ◌>>=◌, [], ◌==◌, ◌||◌, ◌≤◌, ◌∷◌, ◌≡◌, false, suc, refl, not, Option, ltb, some, Result, ap,
  String, true, length, ok, zero, Bool, ℕ, refuse_if, ok_or, arith, is_empty, take,
}

-- Is it a link, is it a regular file, its size, can its group or others write it, and its bytes if
-- they can be read.
pub record FileNode : Type 0 where
  pub is_link : Bool
  pub is_file : Bool
  pub size : ℕ
  pub shared : Bool
  pub content : Option Bytes

-- What stands at the path behind `write_new`.
abbrev pub plain : Bytes → FileNode
plain b = record {
  is_link = false;
  is_file = true;
  size = length b;
  shared = false;
  content = some b;
}

unfoldable pub read_regular : Option FileNode → ℕ → Result String Bytes
read_regular file maximum = ok_or file "file does not exist" >>= λ f.
    refuse_if (f.is_link || not f.is_file || f.size == 0 || ltb maximum f.size)
      "file is not a bounded regular file"
    >> (ok_or f.content "file cannot be read" >>= λ b.
        refuse_if (ltb maximum (length (take (suc maximum) b))) "file exceeds its size limit"
        >> ok (take (suc maximum) b))

pub take_all : (n : ℕ) (b : Bytes) → length b ≤ n → take n b ≡ b
take_all zero [] h = refl
take_all zero (x ∷ b) h = absurd (omega arith)
take_all (suc n) [] h = refl
take_all (suc n) (x ∷ b) h = ap (λ z. x ∷ z) (take_all n b (omega arith))

-- A file that was written is read back, where its size is within the limit.
pub read_regular-plain :
    (b : Bytes) (maximum : ℕ)
    → is_empty b ≡ false
    → length b ≤ maximum
    → read_regular (some (plain b)) maximum ≡ ok b
unfolding read_regular
read_regular-plain [] maximum h k = cc
read_regular-plain (c ∷ b) maximum h k =
    let nonempty : (length (c ∷ b) == 0) ≡ false = ground arith in
    let fits : ltb maximum (length (c ∷ b)) ≡ false = ground arith in
    rw (nonempty, fits, take_all maximum b (omega arith)) (rw fits refl)
