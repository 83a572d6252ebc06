-- ===== src/Service/Trust.antt =====
-- The installation and the daemon together: which authority is trusted, and which one signs.
use dnn_daemon.Common.{◌∙◌, true, refl, ap, ◌≡◌, ◌⊎◌, inl, inr, none, some, arith, ◌||◌}
use dnn_daemon.Common.Bytes.{Bytes}
use dnn_daemon.Authority.{
  save, load-save, not_loaded, no_cert, Ca, Disk, Formats, saved, load_or_generate, load, loaded,
  IsEncoded,
}
use dnn_daemon.Service.Setup.{set_up_authority}
use dnn_daemon.Service.Linux.{Installed, to_store, Host, install_ca}

-- A host on which the certificate reaches the store.
pub record CanTrust (h : Host) : Type 0 where
  pub directory : h.makes_directory ≡ true
  pub known : (h.is_debian || h.is_red_hat) ≡ true
  pub copying : h.copies ≡ true

stored :
    (h : Host) (d : Disk) (cert : Bytes)
    → CanTrust h
    → d.cert ≡ some cert
    → ((to_store h d).store ≡ some cert) × ((to_store h d).disk ≡ d)
stored h d cert can e = ground arith

load-no_cert : (f : Formats) (d : Disk) → d.cert ≡ none → load f d ≡ not_loaded no_cert
unfolding load
load-no_cert f d e = ground arith

load_cert : (f : Formats) (d : Disk) (ca : Ca) → load f d ≡ loaded ca → d.cert ≡ some ca.cert_pem
unfolding load
load_cert f d ca e = ground arith

abbrev new_disk : Ca → Disk
new_disk ca = record { cert = some ca.cert_pem; key = some ca.key_pem }

install_fresh :
    (f : Formats) (h : Host) (generated : Ca) (d : Disk)
    → CanTrust h
    → d.cert ≡ none
    → d.key ≡ none
    → install_ca f h (some generated) saved d ≡ to_store h (new_disk generated)
unfolding install_ca load_or_generate save
install_fresh f h generated d can a b = ground (arith, load-no_cert f d)

install_kept :
    (f : Formats) (h : Host) (generated ca : Ca) (d : Disk)
    → CanTrust h
    → d.cert ≡ some ca.cert_pem
    → install_ca f h (some generated) saved d ≡ to_store h d
unfolding install_ca
install_kept f h generated ca d can e = ground arith

set_up_trusted :
    (f : Formats) (generated : Ca) (d : Disk)
    → IsEncoded f generated
    → ((set_up_authority (some generated) saved true d).1 ≡ some generated.cert_pem)
      × (load f (set_up_authority (some generated) saved true d).0 ≡ loaded generated)
unfolding set_up_authority save
set_up_trusted f generated d e = (refl, load-save f generated d e)

-- What Generate makes is taken to be read back from its encoding. In Linux, on a Debian or Red Hat host
-- where the directory is made and the certificate copied, the certificate that an installation puts into the
-- store is that of the authority which the daemon loads from then on, where neither file of an authority was
-- there, and Generate and Save succeed, or where both were and are read. In Windows, where Generate, Save
-- and the import succeed, it is that of the new authority, and the daemon loads that one from then on,
-- whatever files were there before: this is stated for any disk, beside the one of the Linux host.
pub install_ca_trusted :
    (f : Formats) (h : Host) (generated ca : Ca) (d w : Disk)
    → CanTrust h
    → IsEncoded f generated
    → (((d.cert ≡ none) × (d.key ≡ none)) × (generated ≡ ca)) ⊎ (load f d ≡ loaded ca)
    → ((install_ca f h (some generated) saved d).store ≡ some ca.cert_pem)
      × (load f (install_ca f h (some generated) saved d).disk ≡ loaded ca)
      × ((set_up_authority (some generated) saved true w).1 ≡ some generated.cert_pem)
      × (load f (set_up_authority (some generated) saved true w).0 ≡ loaded generated)
unfolding save
install_ca_trusted f h generated ca d w can e (inl ((a, b), g)) =
    let (store, disk) = stored h (new_disk generated) generated.cert_pem can refl in
    let (imported, after) = set_up_trusted f generated w e in
    (
      ap (λ (i : Installed). i.store) (install_fresh f h generated d can a b)
          ∙ store
          ∙ ap (λ (c : Ca). some c.cert_pem) g,
      ap (λ (i : Installed). load f i.disk) (install_fresh f h generated d can a b)
          ∙ ap (load f) disk
          ∙ load-save f generated d e
          ∙ ap loaded g,
      imported,
      after,
    )
install_ca_trusted f h generated ca d w can e (inr l) =
    let (store, disk) = stored h d ca.cert_pem can (load_cert f d ca l) in
    let kept = install_kept f h generated ca d can (load_cert f d ca l) in
    let (imported, after) = set_up_trusted f generated w e in
    (
      ap (λ (i : Installed). i.store) kept ∙ store,
      ap (λ (i : Installed). load f i.disk) kept ∙ ap (load f) disk ∙ l,
      imported,
      after,
    )
