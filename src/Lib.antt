-- ===== src/Lib.antt =====
-- A verification of the datafoundry proxy, the server behind the user and organization pages of
-- DataFoundry: accounts in LDAP and etcd, organizations with members and admins in etcd, and one
-- project with role bindings on an OpenShift server for each organization; logging in, an inbox of
-- messages in MySQL, and volumes of Heketi.
--
-- The program's parts and the files that model them (paths from the repository's root):
--   types.go                         Types: the records; Json, Json/Codec: their JSON
--   errcode.go                       Errors: codes, texts, and the dynamic types of errors
--   common.go, config.go             Paths: the keys of etcd; Auth: parseRequestBody;
--                                    Openshift: httpsAddrMaker
--   etcd.go                          Store: reads and writes, of users and organizations too
--   http_util.go                     Http: httpGet, httpAction, httpDelete; Response: genRespJson
--   auth.go, profile.go              Auth: checkToken, authedIdentities, getDFUserame
--   organization.go (methods)        Org: IsAdmin, IsLastAdmin, RemoveMember, MemberJoined, ...
--   organization.go (handlers)       Handlers, Handlers/Organization
--   user.go                          User: the list of organizations of a user;
--                                    User/Organizations: OrgLeave, OrgJoin, OrgInvite,
--                                    OrgRemoveMember, OrgPrivilege, CreateOrg, DeleteOrg, ListOrgs;
--                                    User/Account: Validate, Create, AddToLdap, AddToEtcd, ...;
--                                    Project: CreateProject, UpdateRoleBinding, ...
--   signup.go, profile.go, verify_account.go, send_verify_email.go, password_modify.go
--                                    Handlers/Account
--   validation.go                    Validation, with Regex for the patterns that it uses
--   statistics/statistics.go         Statistics: the keys; Statistics/Table: the table of values
--   messages/notification            Messages/Notification: the messages in their table;
--                                    Messages/Notification/Upgrade: the versions of the tables
--   messages/message.go, params.go, error.go, result.go
--                                    Messages/Handlers, Messages/Params, Messages/Errors,
--                                    Messages/Answer
--   message.go                       Handlers/Inbox
--   login.go, signin.go              Login: fragments and tokens; Login/Handlers
--   volume.go                        Volume, Volume/Handlers
--   openshift/openshift.go           Openshift: the clients and their requests
--   main.go                          Routes: the routes and the server
--
-- How state and calls correspond to the code. A call is an action (`M W A`, Effect) on a world `W`
-- that it may change whatever its end: it returns, returns an error, panics, or ends the process
-- (glog.Fatal). `v, err := f()` with an early return is `do v ← f`, and where the code looks at the
-- error itself the action is wrapped in `attempt`. Backend holds what the program calls and does not
-- implement (the clients of etcd and LDAP, http.Client, mail, clock, random numbers) and its
-- configuration, as a parameter; Backend/Laws states what is relied on: a successful read gives what
-- is stored, a write changes its own key at most, and nothing else changes what is stored. Errors may
-- come at any call. A text is the list of the code points of a Go string that is valid UTF-8, and Go's
-- `len` is `byte_length`, which adds up their lengths in UTF-8; JSON is read and written as syntax
-- trees.
--
-- The SQL database of the messages is another parameter (Database): its statements are the texts that
-- the program builds, and Database/Transactions states what is relied on in a transaction: it works on
-- a copy of what is committed, and Commit alone makes that copy the committed one. The laws name by
-- `F` what an error shows, so that one theorem speaks of a database where any call may fail (`Unit`)
-- and of one that never does (`⊥`). The variable dbPhase stands beside the world (Server).
--
-- The client of Heketi and the JSON of the API objects are a parameter too (Storage of
-- Volume/Handlers), as are the transport of the OpenShift client (Transport of Openshift) and the
-- redirects of the authorization servers (Oauth of Login/Handlers). StorageLaws of Volume/Provision
-- states what is relied on: a new volume has a new id, a deleted one is gone, and no call touches the
-- other volumes; a call that ends with an error may have been carried out.
--
-- There is no fuel: the loops of the modelled code run over lists; and memory does not run out.
-- `RemoveMember` edits the slice that it ranges over, and is modelled on the array and the length of
-- the slice, with the panic of a slice bound out of range.
--
-- The server (`serve`) answers requests one after another; handlers that overlap, and so lost updates
-- of an organization between its read and its write, are not modelled. A goroutine that a handler
-- starts is run to its end, behind the handler in volume.go and where it starts in login.go and
-- signin.go; a panic in it ends the process. Logging is left out, and the texts of errors that
-- the program only passes on are shortened.
--
-- Not modelled: strings that are not valid UTF-8, but for the fragments of Login (what is stored is
-- filled from JSON that has been decoded, and encoding/json yields no others); backingservice.go; of
-- the package openshift the refresh of the token, watching, lists with selectors and the helpers
-- that nothing calls; the routes of the handlers in login.go, signin.go, message.go and volume.go;
-- the connection to the databases (messages/init.go) and the sending of mail (messages/mail.go);
-- config.go (the environment) and mail.go (templates), whose values are fields of the backend; the
-- vendored libraries. In the statements for the database, line breaks and tabs are written as single
-- spaces.
pub mod Base
pub mod Errors
pub mod Types
pub mod Effect
pub mod Json
pub mod Paths
pub mod Backend
pub mod Store
pub mod Org
pub mod Http
pub mod Project
pub mod User
pub mod Response
pub mod Regex
pub mod Validation
pub mod Auth
pub mod Handlers
pub mod Routes
pub mod Database
pub mod Statistics
pub mod Openshift
pub mod Login
pub mod Volume
pub mod Messages
pub mod Tests
