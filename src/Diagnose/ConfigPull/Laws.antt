-- ===== src/Diagnose/ConfigPull/Laws.antt =====
-- Config pull can only read.
use slidko.Prelude.{
  ℕ, ◌<◌, ◌≡◌, refl, ◌≢◌, ◌⊎◌, inl, inr, none, some, List, [], ◌∷◌, arith, ◌==◌, ==_iff, Bool-cases,
  All,
}
use Prim.Native.Nat.{bit_xor}
use slidko.Result.{ok, err, product_boundary_error}
use slidko.Diagnose.ConfigPull.{
  MspReadCommand, command_id, allowlist, find_command, build_read_request, api_version, fc_variant,
  fc_version, board_info, build_info, feature_config, rx_config, cf_serial_config, rx_map,
  osd_config, vtx_config, status, analog, battery_state, uid,
}

find_command_sound :
    (command : ℕ) (ms : List MspReadCommand)
    → (find_command command ms ≡ none) × All (λ m. command_id m ≢ command) ms
      ⊎ ((m : MspReadCommand) × (find_command command ms ≡ some m) × (command_id m ≡ command))
unfolding find_command
find_command_sound command [] = inl (refl, tt)
find_command_sound command (m ∷ ms) = elim (Bool-cases (command_id m == command)) [
  | inl y ↦ inr (m, rw y, (==_iff _ _).0 y)
  | inr n ↦ elim (find_command_sound command ms) [
    | inl (e, others) ↦ inl (rw n e, ((λ same. cc (n, (==_iff _ _).1 same)), others))
    | inr (k, e, same) ↦ inr (k, rw n e, same)
  ]
]

-- The allowlist holds every member of the enumeration.
allowlist_complete : (P : MspReadCommand → Type 0) → All P allowlist → (m : MspReadCommand) → P m
allowlist_complete P h api_version = h.0
allowlist_complete P h fc_variant = h.1.0
allowlist_complete P h fc_version = h.1.1.0
allowlist_complete P h board_info = h.1.1.1.0
allowlist_complete P h build_info = h.1.1.1.1.0
allowlist_complete P h feature_config = h.1.1.1.1.1.0
allowlist_complete P h rx_config = h.1.1.1.1.1.1.0
allowlist_complete P h cf_serial_config = h.1.1.1.1.1.1.1.0
allowlist_complete P h rx_map = h.1.1.1.1.1.1.1.1.0
allowlist_complete P h osd_config = h.1.1.1.1.1.1.1.1.1.0
allowlist_complete P h vtx_config = h.1.1.1.1.1.1.1.1.1.1.0
allowlist_complete P h status = h.1.1.1.1.1.1.1.1.1.1.1.0
allowlist_complete P h analog = h.1.1.1.1.1.1.1.1.1.1.1.1.0
allowlist_complete P h battery_state = h.1.1.1.1.1.1.1.1.1.1.1.1.1.0
allowlist_complete P h uid = h.1.1.1.1.1.1.1.1.1.1.1.1.1.1.0

command_id-lt : (m : MspReadCommand) → command_id m < 256
unfolding command_id
command_id-lt = allowlist_complete _ (omega arith)

xor_zero_table : (m : MspReadCommand) → bit_xor 0 (command_id m) ≡ command_id m
unfolding command_id
xor_zero_table = allowlist_complete _ (
  refl,
  (
    refl,
    (
      refl,
      (
        refl,
        (refl, (refl, (refl, (refl, (refl, (refl, (refl, (refl, (refl, (refl, (refl, tt))))))))))),
      ),
    ),
  ),
)

-- A request frame: the header of a request, no payload, a command of one byte, and a checksum that
-- is the exclusive or of size and command.
abbrev pub IsReadFrame : ℕ → List ℕ → Type 0
IsReadFrame command frame =
    (frame ≡ b'$' ∷ b'M' ∷ b'<' ∷ 0 ∷ command ∷ command ∷ []) × (command < 256)

-- For every number, either it is the id of a read command, and the request is a frame of bytes with
-- size 0, that command, and a checksum equal to the command (its exclusive or with the size 0), or
-- it is the id of none, and the request is refused as a breach of the product boundary.
pub build_read_request_lem :
    (command : ℕ)
    → ((m : MspReadCommand) × (command_id m ≡ command)
        × ((frame : List ℕ) × (build_read_request command ≡ ok frame) × IsReadFrame command frame))
      ⊎ (((m : MspReadCommand) → command_id m ≢ command)
          × (build_read_request command ≡ err (product_boundary_error command)))
unfolding build_read_request
build_read_request_lem command = elim (find_command_sound command allowlist) [
  | inl (e, others) ↦ inr (allowlist_complete _ others, rw e)
  | inr (m, e, same) ↦ inl (
    m,
    same,
    (
      b'$' ∷ b'M' ∷ b'<' ∷ 0 ∷ command ∷ bit_xor 0 command ∷ [],
      rw e,
      (rw (← same) (rw (xor_zero_table m) refl), rw (← same) (command_id-lt m)),
    ),
  )
]
