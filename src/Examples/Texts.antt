-- ===== src/Examples/Texts.antt =====
-- Instances of the text forms: byte strings as texts, one run of letters for each byte.
use allegro.Prelude.{
  ℕ, zero, suc, ◌≡◌, refl, ap, ◌∙◌, [], ◌∷◌, Option, none, some, ok, nat_eqb, if◌then◌else◌,
}
use Prim.Native.Nat.{Ordering}
use Prim.Native.Char.{code}
use Prim.Native.String.{String}
use Prim.Native.String
use Prim.Native.String.append
use allegro.Primitives.Digest.{Bytes, PublicKey}
use allegro.Consensus.Validators.{IpAddr, SocketAddr, v4, v6}
use allegro.Node.Chainspec.{TextForms}
use allegro.Xtask.{Generators, local_socket}
use allegro.Xtask.RoundTrip.{Reads, localhost}

abbrev pub letters : ℕ → String → String
letters zero s = String.◌∷◌ "b" s
letters (suc n) s = String.◌∷◌ "a" (letters n s)

abbrev pub spell : Bytes → String
spell [] = String.[]
spell (b ∷ bytes) = letters b (spell bytes)

abbrev pub one_more : Option Bytes → Option Bytes
one_more (some (b ∷ bytes)) = some (suc b ∷ bytes)
one_more _ = none

abbrev pub one_byte : Option Bytes → Option Bytes
one_byte (some bytes) = some (0 ∷ bytes)
one_byte none = none

-- A text in front of what was read.
abbrev pub read_before : String → Option Bytes → Option Bytes
read_before String.[] r = r
read_before (String.◌∷◌ c s) r =
    if nat_eqb (code c) 97 then one_more (read_before s r) else one_byte (read_before s r)

abbrev pub read_text : String → Option Bytes
read_text s = read_before s (some [])

read_before-append :
    (p s : String) (r : Option Bytes)
    → read_before (String.◌++◌ p s) r ≡ read_before p (read_before s r)
read_before-append String.[] s r = ap (λ t. read_before t r) (append.nil s)
read_before-append (String.◌∷◌ c p) s r =
    ap (λ t. read_before t r) (append.cons c p s)
    ∙ ap (λ x. if nat_eqb (code c) 97 then one_more x else one_byte x) (read_before-append p s r)

read_text-letters :
    (n : ℕ) (s : String) (bytes : Bytes)
    → read_text s ≡ some bytes
    → read_text (letters n s) ≡ some (n ∷ bytes)
read_text-letters zero s bytes h = ap one_byte h
read_text-letters (suc n) s bytes h = ap one_more (read_text-letters n s bytes h)

read_text-spell : (bytes : Bytes) → read_text (spell bytes) ≡ some bytes
read_text-spell [] = refl
read_text-spell (b ∷ bytes) = read_text-letters b (spell bytes) bytes (read_text-spell bytes)

-- A socket is spelled by its family, its number and its port. A local one is a prefix, of which ten
-- zeros are read, and its port.
abbrev pub spell_ip : IpAddr → ℕ → String
spell_ip (v4 n) port = spell (1 ∷ n ∷ port ∷ [])
spell_ip (v6 n) port = spell (2 ∷ n ∷ port ∷ [])

abbrev pub last_byte : ℕ → Bytes → ℕ
last_byte n [] = n
last_byte n (b ∷ bytes) = last_byte b bytes

abbrev pub socket_of : Bytes → Option SocketAddr
socket_of (zero ∷ bytes) = some (record { ip = localhost; port = last_byte 0 bytes })
socket_of (suc zero ∷ n ∷ port ∷ []) = some (record { ip = v4 n; port = port })
socket_of (suc (suc _) ∷ n ∷ port ∷ []) = some (record { ip = v6 n; port = port })
socket_of _ = none

abbrev pub socket_read : Option Bytes → Option SocketAddr
socket_read none = none
socket_read (some bytes) = socket_of bytes

abbrev pub key_from_seed : ℕ → PublicKey
key_from_seed i = record { key_bytes = i ∷ [] }

abbrev pub text_forms : TextForms
text_forms = record {
  hex_decode = read_text;
  decode_key = λ bytes. ok (record { key_bytes = bytes });
  parse_socket = λ s. socket_read (read_text s);
}

abbrev pub generators : Generators
generators = record {
  parse_u16 = λ s. elim (String.compare s "2") [ Ordering.eq ↦ some 2 | _ ↦ none ];
  show_u16 = λ port. spell (port ∷ []);
  split_commas = λ s. s ∷ [];
  trim = λ s. s;
  parse_socket = λ s. socket_read (read_text s);
  show_socket = λ addr. spell_ip addr.ip addr.port;
  key_from_seed = key_from_seed;
  hex_encode = spell;
}

spell_ip-read :
    (ip : IpAddr) (port : ℕ)
    → socket_read (read_text (spell_ip ip port)) ≡ some (record { ip = ip; port = port })
spell_ip-read (v4 n) port = ap socket_read (read_text-spell (1 ∷ n ∷ port ∷ []))
spell_ip-read (v6 n) port = ap socket_read (read_text-spell (2 ∷ n ∷ port ∷ []))

local_socket-read :
    (port : ℕ)
    → socket_read (read_text (local_socket generators port))
      ≡ some (record { ip = localhost; port = port })
unfolding local_socket
local_socket-read port = ap socket_read (
    read_before-append "127.0.0.1:" (spell (port ∷ [])) (some [])
    ∙ ap (read_before "127.0.0.1:") (read_text-spell (port ∷ [])))

pub text_forms-Reads : Reads generators text_forms
text_forms-Reads = record {
  hex = read_text-spell;
  key = λ i. refl;
  socket = λ addr. spell_ip-read addr.ip addr.port;
  local_port = λ port fits. local_socket-read port;
}
