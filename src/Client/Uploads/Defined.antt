-- ===== src/Client/Uploads/Defined.antt =====
-- `Client::LoadFile` (src/cncclient.cpp) leaves nothing undefined, whatever the server and the network do.
use cncremote.Prelude.{
  ℕ, zero, suc, ℤ, pos, ◌+ℤ◌, inl, inr, Bool, true, false, not, Bytes, codes, Option, none, some,
  take, drop, ◌==◌, is_empty, length, Bool-cases, Option-cases,
}
use cncremote.Comms.{file_block_size}
use cncremote.Comms.Arithmetic.{Double}
use cncremote.Comms.Wire.{Codec, Wire}
use cncremote.Server.Handlers.{Response}
use cncremote.Client.Calls.{new_call}
use cncremote.Client.Calls.Defined.{IsDefined, continue-IsDefined, if_IsDefined, call-IsDefined}
use cncremote.Client.Session.{Peer, Session, invoke, timeout}
use cncremote.Client.Uploads.{
  Work, call_as, as_on, send_block, send_blocks, enough, load_file, load_remote, upload,
  upload_name, after_upload, send_file, upload_named,
}

module _ {W S : Type 0} ⦃d : Double W⦄ (w : Wire W) (peer : Peer w.Any S) where
  pub invoke-IsDefined :
      (method : Bytes) (params : w.Any) (u : Work w peer)
      → IsDefined (invoke w peer method params u).0
  unfolding invoke
  invoke-IsDefined method params (c, s) =
      call-IsDefined w timeout (peer.request method params s.world).0 c

  as_on-IsDefined :
      {A : Type 0} (codec : Codec w.Any A) (r : Response w.Any) (u : Work w peer)
      → IsDefined (as_on w peer codec r u).0
  as_on-IsDefined codec r u = elim (Option-cases (codec.unpack r.result)) [
    | inl e ↦ rw (as_on, e) tt
    | inr (a, e) ↦ rw (as_on, e) tt
  ]

  call_as-IsDefined :
      {A : Type 0} (method : Bytes) (params : w.Any) (codec : Codec w.Any A) (u : Work w peer)
      → IsDefined (call_as w peer method params codec u).0
  call_as-IsDefined method params codec u =
      continue-IsDefined (invoke w peer method params u) _ (invoke-IsDefined method params u)
        (as_on-IsDefined codec)

  send_blocks-IsDefined :
      (fuel : ℕ) (rest : Bytes) (block : ℤ) (u : Work w peer)
      → IsDefined (send_blocks w peer fuel rest block u).0
  unfolding send_blocks
  send_blocks-IsDefined zero rest block u = tt
  send_blocks-IsDefined (suc fuel) rest block u =
      continue-IsDefined (send_block w peer (take file_block_size rest) block u) _
        (call_as-IsDefined _ _ w.bool u)
        elim [
          | false ↦ λ v. tt
          | true ↦ λ v. elim (Bool-cases (length (take file_block_size rest) == file_block_size)) [
            | inl e ↦
                rw e (send_blocks-IsDefined fuel (drop file_block_size rest) (block +ℤ pos 1) _)
            | inr e ↦ rw e tt
          ]
        ]

  load_remote-IsDefined : (path : Bytes) (u : Work w peer) → IsDefined (load_remote w peer path u).0
  load_remote-IsDefined path u =
      continue-IsDefined (call_as w peer (codes "LoadFile") (w.text.pack path) w.bool u) _
        (call_as-IsDefined _ _ w.bool u) λ b v. tt

  after_upload-IsDefined :
      (path : Bytes) (sent : Option Bool) (u : Work w peer)
      → IsDefined (after_upload w peer path sent u).0
  after_upload-IsDefined path none u = tt
  after_upload-IsDefined path (some false) u = tt
  after_upload-IsDefined path (some true) u = load_remote-IsDefined path u

  send_file-IsDefined :
      (content path : Bytes) (u : Work w peer) → IsDefined (send_file w peer content path u).0
  send_file-IsDefined content path u = elim (Bool-cases (is_empty path)) [
    | inl e ↦ rw e tt
    | inr e ↦ rw e (
        continue-IsDefined (send_blocks w peer (enough content) content (pos 0) u) _
          (send_blocks-IsDefined (enough content) content (pos 0) u) (after_upload-IsDefined path))
  ]

  upload_named-IsDefined :
      (content : Bytes) (name : Option Bytes) (u : Work w peer)
      → IsDefined (upload_named w peer content name u).0
  upload_named-IsDefined content none u = tt
  upload_named-IsDefined content (some name) u =
      continue-IsDefined (call_as w peer (codes "SendInit") (w.text.pack name) w.text u) _
        (call_as-IsDefined _ _ w.text u) (send_file-IsDefined content)

  upload-IsDefined :
      (file : Bytes) (content : Option Bytes) (u : Work w peer)
      → IsDefined (upload w peer file content u).0
  upload-IsDefined file none u = tt
  upload-IsDefined file (some content) u = upload_named-IsDefined content (upload_name file) u

  pub load_file-IsDefined :
      (files : Bytes → Option Bytes) (file : Bytes) (s : Session W w.Any S)
      → IsDefined (load_file w peer files file s).0
  unfolding load_file
  load_file-IsDefined files file s = if_IsDefined (not (peer.is_connected s.world)) _ _ tt (
      if_IsDefined (peer.is_local s.world) _ _ (load_remote-IsDefined file (new_call, s))
        (upload-IsDefined file (files file) (new_call, s)))
