-- ===== src/Joiner/Examples.antt =====
-- Runs of joiner.rs, and its theorems at concrete inputs.
use meshcop_rs.Base.{ℕ, ◌≡◌, refl, List, [], ◌∷◌, some, none, err, if◌then◌else◌, All, false}
use meshcop_rs.Base.Bytes.{Bytes, bytes_eq}
use meshcop_rs.Dtls.Protection.{Ccm}
use meshcop_rs.Dtls.Record.{DtlsRecord, application_data, dtls_1_2_version}
use meshcop_rs.Dtls.Replay.{has_seen, new}
use meshcop_rs.Error.{join_fin_missing}
use meshcop_rs.Joiner.{
  new_handler, enable_joiner_id, disable_joiner_id, enable_all, disable_all, joiner_pskd,
  or_wildcard, joiner_id_from_iid, JoinerSession, required,
}
use meshcop_rs.Joiner.Replays.{accepted, NoRepeat, accepted-NoRepeat}
use meshcop_rs.Tlv.{last_value, find_ty}
use meshcop_rs.Joiner.Table.{joiner_pskd-table}

abbrev iid : Bytes
iid = 0x02 ∷ 0x11 ∷ 0x22 ∷ 0x33 ∷ 0x44 ∷ 0x55 ∷ 0x66 ∷ 0x77 ∷ []

abbrev joiner : Bytes
joiner = 0x00 ∷ 0x11 ∷ 0x22 ∷ 0x33 ∷ 0x44 ∷ 0x55 ∷ 0x66 ∷ 0x77 ∷ []

joiner_of_iid : joiner_id_from_iid iid ≡ joiner
unfolding joiner_id_from_iid
joiner_of_iid = refl

no_state : required (record { entries = [] }) 16 "State" ≡ err (join_fin_missing "State")
unfolding required last_value find_ty
no_state = refl

-- A cipher that leaves every text as it is.
abbrev transparent : Ccm
transparent = record {
  Cipher = Bytes;
  new_from_slice = λ key. some key;
  seal = λ cipher nonce aad plaintext. some plaintext;
  unseal = λ cipher nonce aad ciphertext. some ciphertext;
}

abbrev record_numbered : ℕ → DtlsRecord
record_numbered n = record {
  header = record {
    content_type = application_data;
    version = dtls_1_2_version;
    epoch = 1;
    sequence_number = n;
    len = 16;
  };
  payload = 0 ∷ 0 ∷ 0 ∷ 0 ∷ 0 ∷ 0 ∷ 0 ∷ 0 ∷ 0 ∷ 0 ∷ 0 ∷ 0 ∷ 0 ∷ 0 ∷ 0 ∷ 0 ∷ [];
}

abbrev session : JoinerSession
session = record { key_material = some (record { bytes = [] }, []); replay_window = new }

joiner_pskd-table_example :
    (joiner_pskd (enable_joiner_id new_handler joiner (1 ∷ [])) iid
      ≡ (if bytes_eq joiner iid then some (1 ∷ []) else joiner_pskd new_handler iid))
    × (joiner_pskd (disable_joiner_id new_handler joiner) iid
        ≡ (if bytes_eq joiner iid then none else joiner_pskd new_handler iid))
    × (joiner_pskd (enable_all new_handler (1 ∷ [])) iid
        ≡ or_wildcard (joiner_pskd (disable_all new_handler) iid) (some (1 ∷ [])))
joiner_pskd-table_example = joiner_pskd-table new_handler joiner iid (1 ∷ [])

abbrev replayed : List DtlsRecord
replayed = record_numbered 5 ∷ record_numbered 5 ∷ record_numbered 4 ∷ []

accepted-NoRepeat_example :
    NoRepeat (accepted transparent replayed session)
    × All (λ n. has_seen session.replay_window n ≡ false) (accepted transparent replayed session)
accepted-NoRepeat_example = accepted-NoRepeat transparent replayed session
