-- ===== src/Lib.antt =====
-- cfgipsec: the daemon that keeps the IPsec databases of a Linux kernel as a NETCONF configuration says.
--
-- sysrepo calls `spd_entry_change_cb` and `sad_entry_change_cb` with the changes of a transaction. Each
-- loops over the changes; where one reports a new or a deleted list entry it calls the functions that add or
-- remove an entry, which read the changes of its leaves from the same iterator into a node, keep the node in a
-- global linked list, and tell the kernel of it over PF_KEY.
--
-- The files, and the code they are about:
-- - Base (Base/Tests, Base/Outcome, Base/Lists): shared names. `Run` is the outcome of C code: a value, or
--   the undefined behaviour that it runs into.
-- - Text: the functions of string.h that the program uses. A text is the list of its bytes before the NUL.
-- - Utils/Constants: src/constants.h. Utils/Algorithms, Utils/Tables, Utils/Address, Utils/Hex: src/utils/utils.c, and
--   `pf_get_alg_enum_name` of src/pfkeyv2_utils/pfkeyv2_entry.c. Utils/Decimal has `atoi` and the printing of
--   numbers, Utils/HexLaws the theorems on keys.
-- - Store: the linked lists of src/sysrepo_utils/sysrepo_entries.c (`add_spd_node`, `get_spd_node`,
--   `del_spd_node`, and the same for associations) over a heap. Store/Seg has the invariant of a list, and
--   Store/Find, Store/Add, Store/Last, Store/Cut and Store/Delete what the functions do to it.
-- - Sysrepo: values, changes and result codes of sysrepo. Sysrepo/ReadLoop: the loop that `readSPD_entry`
--   and `readSAD_entry` share.
-- - Spd: src/spd_entry/. Spd/Read: `readSPD_entry`. Spd/ReadLaws and Spd/Config are about the leaves of a policy
--   and an abstract policy.
-- - Sad: src/sad_entry/. Sad/Leaf, Sad/Read: `readSAD_entry`, with its result code and its keys in
--   Sad/ReadLaws. Sad/Config (Steps, Words, Numbers and RoundTrip) is about the leaves of an association and an abstract
--   association.
-- - Entries: `addSPD_entry`, `removeSPD_entry` (Entries/Spd), `addSAD_entry` and `removeSAD_entry`
--   (Entries/Sad), over the interface `Pfkey` of the functions that talk to the kernel.
-- - Callbacks: src/sysrepo_utils/sysrepo_utils.c. Callbacks/Loop and Callbacks/Fuel are about its loop,
--   Callbacks/Policies and Callbacks/Transaction about a transaction that creates policies, Callbacks/Associations about
--   one that creates associations, and Callbacks/Removal about those that delete entries, each over an interface to the
--   kernel; Callbacks/Composed and Callbacks/Creation compose them with the program's own PF_KEY functions.
-- - State: `get_sad_state` of src/sysrepo_utils/sysrepo_entries.c, with its theorem in State/Walk. State/Notify:
--   `send_acquire_notification`, `send_sa_expire_notification` and `send_delete_SAD_request`, over the
--   interface `Datastore`; State/NotifyLaws is about them.
-- - PfKey: the length macros and `parse_pfkey_message` of src/pfkeyv2_utils/pfkeyv2_entry.c, with its theorems in
--   PfKey/Parse and PfKey/Found. PfKey/Constants: its part of src/constants.h. PfKey/Lifetime:
--   `pf_get_sad_lifetime_current_by_spi`; PfKey/Lifetime/Fields, Spec and Dump are about the bytes of a dump and what
--   they mean. PfKey/Walk: the loop over extensions, with its theorem in PfKey/Walk/Effects.
-- - PfKey/Send: `pf_setsadbaddr` and the messages of `pf_addpolicy` and `pf_delpolicy`; PfKey/Send/Sad: those of
--   `pf_addsad`, `pf_delsad` and `pf_getsad`. Buffer, Addresses, Policy, Key, SadParts, SadLaws and Accepted
--   below it are about their extensions.
-- - PfKey/Kernel: the five functions themselves and the search for the index of a policy, over a kernel `Machine`.
--   PfKey/Kernel/Fill makes the interface `Pfkey` of them; Requests, Items, Index and Lookup are about the search.
-- - PfKey/Register: the thread `pf_sadb_esp_register_run`, and `pf_exec_register`; PfKey/Register/Thread,
--   Steps, Invariant and Lock are about them.
-- - PfKey/Socket: `pfkey_send_socket` and `pfkey_send`; PfKey/Socket/Bytes, Reply and Answer are about them.
-- - Utils/Inet: `sock_ntop` of src/utils/utils.c, with `inet_addr` and `inet_ntop` of the C library.
-- - Json: objects of the library parson, over the interface `Parson`; Json/Fields is about what is found in them.
--   Json/Sad: `serialize_sad_node` and `deserialize_sad_node` of src/sad_entry/sad_entry.c, with their theorem in
--   Json/Sad/RoundTrip. Json/Messages: the messages of src/messages/messages.c that hold numbers and texts.
-- - Tests: the theorems at concrete inputs.
--
-- State and bounds. A heap maps addresses to nodes; addresses are handed out in rising order and never
-- twice, so that a freed one stays dead. What fresh memory holds is a parameter. The loops over a list have
-- one round more than addresses were handed out, and those over the changes one more than there are changes.
-- An integer field has the width of the C type that is read for it; a read of a union by another member than
-- the one that was written is modelled by the bits.
--
-- A list entry that sysrepo reports has no value, which is read as 0. The paths of the leaves are those of the YANG modules
-- (yang/ietf-i2nsf-ikeless.yang and yang/ietf-i2nsf-ikec.yang).
--
-- Messages of the kernel, and what system calls give, are inputs; the addresses of a message are IPv4. A loop over
-- the extensions of a message has one round more than the message has bytes; an extension of length 0, over which the
-- program loops for ever, runs out of them.
--
-- Not modelled: `get_message`, `create_message` and the message with an array of associations, which need JSON values
-- inside objects, printing and logging, and the main programs. The libraries sysrepo, libyang and parson are not part
-- of the repository. `get_new_xpath` writes one byte behind its allocation, which is taken to be harmless.
pub mod Base
pub mod Text
pub mod Utils
pub mod Store
pub mod Sysrepo
pub mod Spd
pub mod Sad
pub mod Json
pub mod Entries
pub mod Callbacks
pub mod Tests
pub mod PfKey
pub mod State
