-- ===== src/OsScan/Options.antt =====
-- One option of a scan, as the client reads it.
use cheops_ng.Prelude.{
  ℕ, suc, ◌+◌, ◌^◌, ◌<◌, ◌≡◌, ◌≢◌, refl, Bool, List, [], ◌∷◌, ◌++◌, length, All, Option, none, some,
  arith, ap, sym, ◌∙◌,
}
use mathlib.Core.List.{append_assoc}
use cheops_ng.Prelude.Bytes.{
  skip, string_at, get_word, put_word, put_string, get_word-put_word, skip-length,
  string_at-put_string, skip-put_string,
}
use cheops_ng.OsScan.Reply.{Port, put_option, port_body, text_or_empty}
use cheops_ng.OsScan.Client.{
  PortEntry, Reading, read_port, add_port, non_empty, read_option, read_options,
}

abbrev pub IsText : Option (List ℕ) → Type 0
IsText s = All (λ x. x ≢ 0) (text_or_empty s)

-- Words of 32 bits, and texts without a NUL.
pub record IsPort (p : Port) : Type 0 where
  pub protocol : p.protocol < 2 ^ 32
  pub portid : p.portid < 2 ^ 32
  pub state : p.state < 2 ^ 32
  pub proto : p.proto < 2 ^ 32
  pub rpcnum : p.rpcnum < 2 ^ 32
  pub rpclowver : p.rpclowver < 2 ^ 32
  pub rpchighver : p.rpchighver < 2 ^ 32
  pub service : IsText p.service
  pub owner : IsText p.owner

-- The entry of the client for a port of the scan.
abbrev pub entry_of : Port → PortEntry
entry_of p = record {
  port = p.portid;
  protocol = p.protocol;
  proto = p.proto;
  state = p.state;
  rpcnum = p.rpcnum;
  rpclowver = p.rpclowver;
  rpchighver = p.rpchighver;
  name = text_or_empty p.service;
  owner = text_or_empty p.owner;
}

pub length-put_option : (type : ℕ) (body : List ℕ) → length (put_option type body) ≡ 8 + length body
unfolding put_option put_word
length-put_option type body = omega arith

-- The option at a pointer: its type, and the pointer behind it.
type_of_option :
    (type : ℕ) (body rest : List ℕ) → type < 2 ^ 32 → get_word (put_option type body ++ rest) ≡ type
unfolding put_option put_word
type_of_option type body rest h =
    get_word-put_word type (put_word (8 + length body) ++ (body ++ rest)) h

next_option :
    (type : ℕ) (body rest : List ℕ)
    → 8 + length body < 2 ^ 32
    → skip (get_word (skip 4 (put_option type body ++ rest))) (put_option type body ++ rest) ≡ rest
unfolding put_option put_word skip
next_option type body rest h =
    let len : get_word (skip 4 (put_option type body ++ rest)) ≡ 8 + length body =
      get_word-put_word (8 + length body) (body ++ rest) h in
    ap (λ (n : ℕ). skip n (put_option type body ++ rest)) (len ∙ sym (length-put_option type body))
    ∙ skip-length (put_option type body) rest

module _ (p : Port) (rest : List ℕ) (h : IsPort p) where
  option_of : List ℕ
  option_of = put_option 2 (port_body p) ++ rest

  texts : List ℕ
  texts = (put_string (text_or_empty p.service) ++ put_string (text_or_empty p.owner)) ++ rest

  name_at : string_at texts ≡ text_or_empty p.service
  unfolding texts
  name_at =
      ap string_at (
        append_assoc (put_string (text_or_empty p.service)) (put_string (text_or_empty p.owner))
          rest)
      ∙ string_at-put_string (text_or_empty p.service) (put_string (text_or_empty p.owner) ++ rest)
          h.service

  owner_at : string_at (skip (suc (length (string_at texts))) texts) ≡ text_or_empty p.owner
  unfolding texts
  owner_at =
      let name = text_or_empty p.service in
      let tail = put_string (text_or_empty p.owner) ++ rest in
      ap (λ (s : List ℕ). string_at (skip (suc (length s)) texts)) name_at
      ∙ ap (λ (l : List ℕ). string_at (skip (suc (length name)) l))
          (append_assoc (put_string name) (put_string (text_or_empty p.owner)) rest)
      ∙ ap string_at (skip-put_string name tail)
      ∙ string_at-put_string (text_or_empty p.owner) rest h.owner

  read_port-put_option : read_port (put_option 2 (port_body p) ++ rest) ≡ entry_of p
  unfolding read_port put_option put_word port_body skip option_of texts
  read_port-put_option =
      let protocol : get_word (skip 8 option_of) ≡ p.protocol =
        get_word-put_word p.protocol [] h.protocol in
      let state : get_word (skip 12 option_of) ≡ p.state = get_word-put_word p.state [] h.state in
      let port : get_word (skip 16 option_of) ≡ p.portid = get_word-put_word p.portid [] h.portid in
      let proto : get_word (skip 20 option_of) ≡ p.proto = get_word-put_word p.proto [] h.proto in
      let rpcnum : get_word (skip 24 option_of) ≡ p.rpcnum =
        get_word-put_word p.rpcnum [] h.rpcnum in
      let low : get_word (skip 28 option_of) ≡ p.rpclowver =
        get_word-put_word p.rpclowver [] h.rpclowver in
      let high : get_word (skip 32 option_of) ≡ p.rpchighver =
        get_word-put_word p.rpchighver [] h.rpchighver in
      λ i. record {
        port = port i;
        protocol = protocol i;
        proto = proto i;
        state = state i;
        rpcnum = rpcnum i;
        rpclowver = low i;
        rpchighver = high i;
        name = name_at i;
        owner = owner_at i;
      }

-- What the client has after a port, and after several.
abbrev pub receive_port : Bool → Port → Reading → Reading
receive_port probing p r = add_port probing (entry_of p) r

abbrev pub receive_ports : Bool → List Port → Reading → Reading
receive_ports probing [] r = r
receive_ports probing (p ∷ ps) r = receive_ports probing ps (receive_port probing p r)

abbrev pub receive_os : Option (List ℕ) → Reading → Reading
receive_os none r = r
receive_os (some name) r = record r { stats = record r.stats { os = some name } }

abbrev pub receive_uptime : Option ℕ → Option (List ℕ) → Reading → Reading
receive_uptime none last_boot r = r
receive_uptime (some seconds) last_boot r = record r {
  stats = record r.stats {
    uptime_seconds = seconds;
    uptime_last_boot = non_empty (text_or_empty last_boot) r.stats.uptime_last_boot;
  };
}

-- A step of the loop at an option.
pub read_options-put_option :
    (probing : Bool) (n type : ℕ) (body rest : List ℕ) (r r' : Reading)
    → 8 + length body < 2 ^ 32
    → read_option probing (put_option type body ++ rest) r ≡ r'
    → read_options probing (suc n) (put_option type body ++ rest) r ≡ read_options probing n rest r'
unfolding read_options
read_options-put_option probing n type body rest r r' h e =
    ap
      (λ (l : List ℕ).
        read_options probing n l (read_option probing (put_option type body ++ rest) r))
      (next_option type body rest h)
    ∙ ap (read_options probing n rest) e

body_at : (type : ℕ) (body rest : List ℕ) → skip 8 (put_option type body ++ rest) ≡ body ++ rest
unfolding put_option put_word skip
body_at type body rest = refl

seconds_at :
    (seconds : ℕ) (text rest : List ℕ)
    → seconds < 2 ^ 32
    → (get_word (skip 8 (put_option 3 (put_word seconds ++ text) ++ rest)) ≡ seconds)
      × (skip 12 (put_option 3 (put_word seconds ++ text) ++ rest) ≡ text ++ rest)
unfolding put_option put_word skip get_word
seconds_at seconds text rest h = (get_word-put_word seconds [] h, refl)

pub read_option-port :
    (probing : Bool) (p : Port) (rest : List ℕ) (r : Reading)
    → IsPort p
    → read_option probing (put_option 2 (port_body p) ++ rest) r ≡ receive_port probing p r
unfolding read_option
read_option-port probing p rest r h =
    rw (type_of_option 2 (port_body p) rest (omega arith))
      (ap (λ (e : PortEntry). add_port probing e r) (read_port-put_option p rest h))

pub read_option-os :
    (probing : Bool) (name rest : List ℕ) (r : Reading)
    → All (λ x. x ≢ 0) name
    → read_option probing (put_option 1 (put_string name) ++ rest) r ≡ receive_os (some name) r
unfolding read_option
read_option-os probing name rest r h =
    let text : string_at (skip 8 (put_option 1 (put_string name) ++ rest)) ≡ name =
      ap string_at (body_at 1 (put_string name) rest) ∙ string_at-put_string name rest h in
    rw (type_of_option 1 (put_string name) rest (omega arith))
      (ap (λ (s : List ℕ). receive_os (some s) r) text)

pub read_option-uptime :
    (probing : Bool) (seconds : ℕ) (last_boot : Option (List ℕ)) (rest : List ℕ) (r : Reading)
    → seconds < 2 ^ 32
    → IsText last_boot
    → read_option probing
        (put_option 3 (put_word seconds ++ put_string (text_or_empty last_boot)) ++ rest)
        r
      ≡ receive_uptime (some seconds) last_boot r
unfolding read_option
read_option-uptime probing seconds last_boot rest r h k =
    let text = text_or_empty last_boot in
    let at = seconds_at seconds (put_string text) rest h in
    let boot : string_at (skip 12 (put_option 3 (put_word seconds ++ put_string text) ++ rest))
        ≡ text =
      ap string_at at.1 ∙ string_at-put_string text rest k in
    rw (type_of_option 3 (put_word seconds ++ put_string text) rest (omega arith)) (λ i. record r {
      stats = record r.stats {
        uptime_seconds = at.0 i;
        uptime_last_boot = non_empty (boot i) r.stats.uptime_last_boot;
      };
    })
