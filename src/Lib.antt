-- ===== src/Lib.antt =====
-- go-adldap: an LDAP client for Active Directory, in Go.
--
-- The program opens a pool of bound connections to one domain controller
-- (internal/conn), runs each operation on one of them (exec.go) with its failures
-- classified (internal/ldaperr) and the transient ones retried, and edits the security
-- descriptors of objects as bytes (internal/secdesc): it reads the descriptor
-- attribute, changes the entries of its DACL, and writes the whole back only
-- where something changed.
--
-- The files:
--   Base, Base/*: lists measured by native numbers, Boolean tests, bit
--     operations, little-endian bytes, texts of ASCII codes (Base/Text, what is
--     used of Go's strings), and Outcome, a value or an error.
--   SecDesc: internal/secdesc/secdesc.go, the struct `parsed` as Parsed, parse
--     and serialize, aces and buildACL. A byte slice is a list of numbers, and
--     All IsByte says that these are bytes where a theorem needs it; uint16 and
--     uint32 fields wrap around where they are written. An error is a constructor
--     of SdError for each message.
--   SecDesc/Image, Codec, WellFormed, AceList, Edit: lemmas on the layout of a
--     written descriptor, on its well-formedness and on the edit of its entries
--     that all operations share (`p.dacl = buildACL(...)` as with_entries).
--   SecDesc/Protection: IsProtected and SetProtected of secdesc.go.
--   SecDesc/Denied: HasDeniedObjectRight and SetDeniedObjectRight of secdesc.go.
--   SecDesc/Ace: internal/secdesc/ace.go, decodeACE, EncodeACE, AddACEs and
--     RemoveACEs, whose match is a parameter.
--   SecDesc/Inheritance: InheritanceOf and FlagsFor of ace.go.
--   SecDesc/Principals: internal/secdesc/principals.go.
--   Guid, Sid: the texts of GUIDs and SIDs in internal/attrs/attrs.go.
--   Rights: internal/secdesc/rights.go, over the table of the rights' names.
--   Directory: the types of internal/conn/conn.go, and Proc, an operation as a
--     tree: it is done with an outcome, or makes a request and goes on with the
--     reply. A request stands for one withConn around one method of Conn, and its
--     reply is what withConn returns, so the trees of the operations compose
--     with Exec. Directory/Logic: Holds, what is true of each request at the
--     history of requests and replies before it, and of the outcome at the end,
--     whatever the replies are.
--   Adcore: the functions of go-adcore that the operations call, as a record that
--     each operation takes. An error is an OpError: its kind, code, message,
--     target and mark of a deleted object.
--   Search: search.go. Search/Found: the names that the searches so far found.
--   Tombstone: tombstone.go. Operation: the steps that the operations share, with
--     the delete that is confirmed by a read.
--   Ou: ou.go, with setProtection in Ou/Protection. Acl: acl.go. Group: group.go,
--     with the records and what an update writes in Group/Data. Group/Membership:
--     membership.go. The locks of these operations on the object, and the name of
--     the operation in an error, are left out. replicate is a parameter of the
--     operations.
--   Account: what users, computers and service accounts share: the bits of
--     userAccountControl, the writes of a control, an account name and a time of
--     expiry. FileTime: FILETIME in internal/attrs/attrs.go, where an int64 is a
--     number below 2 ^ 64 in two's complement, and a time the int64 of its
--     nanoseconds.
--   User: user.go, with the records and what an update or a create writes in
--     User/Data, setCanChangePassword in User/Descriptor, and SetPassword in
--     User/Password, where a password is the list of its runes. User/Control: the
--     account control that an update writes. User/Creation: the create.
--   Machine: what computer.go and gmsa.go share or repeat: the names that end in a
--     dollar sign, the account control of a machine, the principals of a
--     delegation. Computer: computer.go. Gmsa: gmsa.go, where a create without a
--     host name is a panic and told apart. Both pass the cache of the domain SID
--     through what uses it.
--   Deletion: the Delete of the four directories, each by remove_object of
--     Operation. Operation/Removal: the delete of an object for any Get that
--     answers with what a search found alone.
--   Idle: when the parts of an update write nothing.
--   Schema: schema.go. Principals: principals.go, where the cache of the domain
--     SID is passed from call to call, its error included.
--   Replication: replication.go. What the other domain controllers answer in each
--     round of the wait, whether the round ends after the deadline and whether the
--     context is done are parameters; the times are not modelled.
--   Ranged: ranged.go. The keys of an entry are tried in the order of the list that
--     stands for the map.
--   Memory: the in-memory directory of internal/adtest/memory.go, with the names of
--     internal/adtest/server.go: Search, and the pages in which it hands out the
--     values of an attribute; Memory/Pages and Memory/Retrieval put it behind
--     Ranged. Memory/Store: Add, Modify and Delete; Memory/Move:
--     ModifyDN; Memory/Changes: what each leaves behind. A map is the list of its
--     keys in some order; the test of a filter is a parameter.
--   Config: config.go, Validate on the fields that it reads.
--   GroupType: the groupType of a group in internal/attrs/attrs.go, with what is
--     used of strconv.FormatInt and ParseInt in base 10.
--   EncTypes: internal/attrs/enctypes.go, the names and bits of encryption types,
--     on ASCII names.
--   Pool: internal/conn/pool.go. The state of the whole is World: the pool with
--     the permits taken from its semaphore, the goroutines that hold a permit with
--     the place where each stands, and the connections closed so far. Step is one
--     step of one goroutine: its critical sections are atomic, and everything that
--     runs outside the lock (the dialling, the binding, the closing of one
--     connection, the giving back of the permit) may interleave with the others.
--     The closing of the idle connections by Close is one step with the marking.
--     A connection is the number under which it was dialled.
--   LdapErr: internal/ldaperr/classify.go. An error is a Failure, by what errors.Is
--     and errors.As find in its chain; adcore's table of Win32 codes is a
--     parameter, and Kind has a constructor for each kind that the package names.
--   Binding: internal/conn/authchksum.go and cbt.go, whose hashes are parameters; a
--     panic is none.
--   Gss: internal/conn/gssclient.go, the reader of a wrap token, where a slice out of
--     range is a panic, and that is none. Gss/Client: the client of a bind, with the
--     keys that it holds, over a record of what it calls of the Kerberos library.
--   Exec: exec.go, withConn. What each attempt meets (a failed Acquire, or the
--     operation with its result) and what Backoff returns are parameters, and the
--     model gives the result with the ends of the leases, in order. The loop is
--     recursion on the attempts that are left, MaxAttempts of them at first, as
--     its bound in the source.
--   The Tests modules run the theorems on concrete bytes and concrete runs.
--
-- Bounds and fuel: the recursion of aces_from is on the number of entries that
-- the ACL states, a number that the loop of the source counts to as well. The
-- decimal text of a number has fuel for its digits: ten for 32 bits, twenty for
-- 64 bits. The loop of rangedValues has fuel for its pages, and gives none where it
-- does not suffice: a page that is not the last one has a value, so one more than
-- the number of values is enough. The wait for replication has fuel for its
-- rounds: those up to the one that is late.
-- Sizes that must fit 16 bits are hypotheses on the length of the DACL, since
-- buildACL does not check them.
--
-- Not modelled: the network, TLS, and the LDAP and Kerberos libraries, which
-- are not part of the repository; the wiring of a client in client.go; the
-- ticket sources, the binders and the dialling in internal/conn; the locks that operations
-- hold on their objects; the size of a pool that is negative (Go takes 4, as for
-- 0); the error value that an Acquire returns; the logging; and of the test servers
-- in internal/adtest the filter language and the socket server.
mod Base
pub mod SecDesc
pub mod GroupType
pub mod EncTypes
pub mod LdapErr
pub mod Directory
pub mod Adcore
pub mod Search
pub mod Tombstone
pub mod Operation
pub mod Ou
pub mod Group
pub mod Principals
pub mod Schema
pub mod Replication
pub mod FileTime
pub mod Account
pub mod Machine
pub mod Computer
pub mod Gmsa
pub mod User
pub mod Idle
pub mod Memory
pub mod Config
pub mod Gss
pub mod Deletion
pub mod Ranged
pub mod Acl
pub mod Guid
pub mod Sid
pub mod Rights
pub mod Binding
pub mod Exec
pub mod Pool
