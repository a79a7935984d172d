-- ===== src/Tests/Codecs.antt =====
-- Encodings of records as byte strings for the tests: every part is read back, and then the rest.
use quipnet.Base.{
  ℕ, zero, suc, Bool, true, false, Option, none, some, List, [], ◌∷◌, ◌++◌, Bytes, length, take,
  drop, ◌≡◌, refl, take-append_self, ap, sym, ◌∙◌,
}
use mathlib.Core.List.{append_assoc, append-nil}
use quipnet.Fabric.Backup.{
  DurableBackupAsset, DurableBackupManifest, DurableBackupBundleData, DurableBackupBundleEnvelope,
}

pub record Codec (A : Type 0) : Type 0 where
  pub write : A → Bytes
  pub read : Bytes → Option (A × Bytes)
  pub read_write : (a : A) (rest : Bytes) → read (write a ++ rest) ≡ some (a, rest)

abbrev first_of : Bytes → Option (ℕ × Bytes)
first_of [] = none
first_of (n ∷ s) = some (n, s)

abbrev number : Codec ℕ
number = record { write = λ n. n ∷ []; read = first_of; read_write = λ n rest. refl }

abbrev sized : Bytes → Option (Bytes × Bytes)
sized [] = none
sized (n ∷ s) = some (take n s, drop n s)

pub drop-append_self : (xs ys : Bytes) → drop (length xs) (xs ++ ys) ≡ ys
drop-append_self [] ys = refl
drop-append_self (x ∷ xs) ys = drop-append_self xs ys

pub sized_back : (s rest : Bytes) → sized (length s ∷ (s ++ rest)) ≡ some (s, rest)
sized_back s rest = cc (take-append_self s rest, drop-append_self s rest)

abbrev string : Codec Bytes
string = record { write = λ s. length s ∷ s; read = sized; read_write = sized_back }

abbrev bit : Bool → ℕ
bit true = 1
bit false = 0

abbrev bit_of : Bytes → Option (Bool × Bytes)
bit_of (zero ∷ s) = some (false, s)
bit_of (suc n ∷ s) = some (true, s)
bit_of [] = none

pub bit_back : (b : Bool) (rest : Bytes) → bit_of (bit b ∷ rest) ≡ some (b, rest)
bit_back true rest = refl
bit_back false rest = refl

abbrev boolean : Codec Bool
boolean = record { write = λ b. bit b ∷ []; read = bit_of; read_write = bit_back }

module _ {A B : Type 0} where
  abbrev then_read : (A → B) → Option (A × Bytes) → Option (B × Bytes)
  then_read f none = none
  then_read f (some (a, s)) = some (f a, s)

  -- Along a bijection.
  abbrev along : (to : A → B) (of : B → A) → ((b : B) → to (of b) ≡ b) → Codec A → Codec B
  along to of back c = record {
    write = λ b. c.write (of b);
    read = λ s. then_read to (c.read s);
    read_write =
        λ b rest. ap (then_read to) (c.read_write (of b) rest) ∙ ap (λ x. some (x, rest)) (back b);
  }

  abbrev pair_with : A → Option (B × Bytes) → Option ((A × B) × Bytes)
  pair_with a none = none
  pair_with a (some (b, s)) = some ((a, b), s)

  abbrev read_second : (Bytes → Option (B × Bytes)) → Option (A × Bytes) → Option ((A × B) × Bytes)
  read_second r none = none
  read_second r (some (a, s)) = pair_with a (r s)

  pub pair_back :
      (c : Codec A) (d : Codec B) (p : A × B) (rest : Bytes)
      → read_second d.read (c.read ((c.write p.0 ++ d.write p.1) ++ rest)) ≡ some (p, rest)
  pair_back c d (a, b) rest =
      ap (λ s. read_second d.read (c.read s)) (append_assoc (c.write a) (d.write b) rest)
      ∙ (ap (read_second d.read) (c.read_write a (d.write b ++ rest))
          ∙ ap (pair_with a) (d.read_write b rest))

  infixr 30 ◌&◌
  abbrev ◌&◌ : Codec A → Codec B → Codec (A × B)
  c & d = record {
    write = λ p. c.write p.0 ++ d.write p.1;
    read = λ s. read_second d.read (c.read s);
    read_write = pair_back c d;
  }

module _ {A : Type 0} (c : Codec A) where
  abbrev write_option : Option A → Bytes
  write_option none = 0 ∷ []
  write_option (some a) = 1 ∷ c.write a

  abbrev read_option : Bytes → Option (Option A × Bytes)
  read_option [] = none
  read_option (zero ∷ s) = some (none, s)
  read_option (suc n ∷ s) = then_read some (c.read s)

  pub option_back :
      (o : Option A) (rest : Bytes) → read_option (write_option o ++ rest) ≡ some (o, rest)
  option_back none rest = refl
  option_back (some a) rest = ap (then_read some) (c.read_write a rest)

  abbrev optional : Codec (Option A)
  optional = record { write = write_option; read = read_option; read_write = option_back }

  abbrev write_items : List A → Bytes
  write_items [] = []
  write_items (a ∷ xs) = c.write a ++ write_items xs

  abbrev cons_with : A → Option (List A × Bytes) → Option (List A × Bytes)
  cons_with a none = none
  cons_with a (some (xs, s)) = some (a ∷ xs, s)

  unfoldable pub read_items : ℕ → Bytes → Option (List A × Bytes)
  read_items zero s = some ([], s)
  read_items (suc n) s = elim (c.read s) [ none ↦ none | some x ↦ cons_with x.0 (read_items n x.1) ]

  pub items_back :
      (xs : List A) (rest : Bytes)
      → read_items (length xs) (write_items xs ++ rest) ≡ some (xs, rest)
  unfolding read_items
  items_back [] rest = refl
  items_back (a ∷ xs) rest = rw (append_assoc (c.write a) (write_items xs) rest) (
      rw (c.read_write a (write_items xs ++ rest), read_items)
        (ap (cons_with a) (items_back xs rest)))

  abbrev read_sized : Bytes → Option (List A × Bytes)
  read_sized [] = none
  read_sized (n ∷ s) = read_items n s

  abbrev many : Codec (List A)
  many = record {
    write = λ xs. length xs ∷ write_items xs;
    read = read_sized;
    read_write = items_back;
  }

abbrev asset : Codec DurableBackupAsset
asset =
    along
      (λ x. record { concern = x.0; relative_path = x.1.0; sha256_hex = x.1.1.0; bytes = x.1.1.1 })
      (λ a. (a.concern, (a.relative_path, (a.sha256_hex, a.bytes)))) (λ a. refl)
      (string & (string & (string & number)))

abbrev manifest : Codec DurableBackupManifest
manifest =
    along
      (λ x. record {
        format = x.0.0;
        format_version = x.0.1.0;
        created_at_unix_secs = x.0.1.1.0;
        hostname = x.0.1.1.1.0;
        environment = x.0.1.1.1.1.0;
        network = x.0.1.1.1.1.1.0;
        identity_path = x.0.1.1.1.1.1.1;
        state_path = x.1.0;
        authority_origin = x.1.1.0;
        authority_subject = x.1.1.1.0;
        authority_snapshot = x.1.1.1.1.0;
        durable_state_present = x.1.1.1.1.1.0;
        durable_state_valid = x.1.1.1.1.1.1.0;
        assets = x.1.1.1.1.1.1.1;
      })
      (λ m. (
        (
          m.format,
          (
            m.format_version,
            (m.created_at_unix_secs, (m.hostname, (m.environment, (m.network, m.identity_path)))),
          ),
        ),
        (
          m.state_path,
          (
            m.authority_origin,
            (
              m.authority_subject,
              (m.authority_snapshot, (m.durable_state_present, (m.durable_state_valid, m.assets))),
            ),
          ),
        ),
      ))
      (λ m. refl)
      ((string & (number & (number & (string & (string & (string & string))))))
        & (string
            & (optional string
                & (optional string & (optional string & (boolean & (boolean & many asset)))))))

unfoldable pub bundle : Codec DurableBackupBundleData
bundle =
    along (λ x. record { manifest = x.0; identity_file_base64 = x.1.0; state_file_base64 = x.1.1 })
      (λ b. (b.manifest, (b.identity_file_base64, b.state_file_base64))) (λ b. refl)
      (manifest & (string & string))

unfoldable pub envelope : Codec DurableBackupBundleEnvelope
envelope =
    along
      (λ x. record {
        version = x.0;
        cipher = x.1.0;
        kdf = x.1.1.0;
        salt = x.1.1.1.0;
        nonce = x.1.1.1.1.0;
        ciphertext = x.1.1.1.1.1;
      })
      (λ e. (e.version, (e.cipher, (e.kdf, (e.salt, (e.nonce, e.ciphertext)))))) (λ e. refl)
      (number & (string & (string & (string & (string & string)))))

abbrev whole : {A : Type 0} → Option (A × Bytes) → Option A
whole none = none
whole (some (a, s)) = some a

-- The value that a text starts with.
abbrev pub decoded : {A : Type 0} → Codec A → Bytes → Option A
decoded c s = whole (c.read s)

pub decoded-write : {A : Type 0} (c : Codec A) (a : A) → decoded c (c.write a) ≡ some a
decoded-write c a =
    ap (λ s. whole (c.read s)) (sym (append-nil (c.write a))) ∙ ap whole (c.read_write a [])
