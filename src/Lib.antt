-- ===== src/Lib.antt =====
-- The sign-in and access-control core of the control panel's back end (package directories
-- internal/store, internal/auth, internal/api and internal/remotesvc of the repository), with the listening ports of
-- servers and the audit trail.
--
-- Texts are lists of code points (Text). strings.ToLower and ToUpper change ASCII letters only: the
-- case of other letters is not modelled. Fallible stateful code is an action that returns a result and
-- the next state (Action), and Go's int64 is the library's integers over native numbers, with bounds
-- stated where a text is parsed. Times are numbers of milliseconds, and of seconds in Auth.Totp and
-- Auth.Jwt; the clock is an argument of each operation that reads it.
--
-- Two servers stand outside the code. Store.Redis and Store.Database are interfaces to them: records
-- of commands, whose hypotheses (IsDocumented) say what an answered command did; any command may fail
-- instead. Time passes between the commands of Redis, and keys expire; an error of the database that a
-- table or a column is unknown is told apart from others. A SQL statement is given by what it does to
-- the tables it names. Hashes, MACs, base32, random bytes and JSON are parameters.
--
-- The parts:
--  * Store.LoginThrottle, internal/store/login_throttle.go: failed sign-ins are counted per account and IP
--    and locked out at a limit. RetryAfter is retry_after, RecordFailure is record_failure.
--  * Store.AuthSessions, internal/store/auth_sessions.go: the sessions of the panel.
--  * Store.UserMfa, internal/store/user_mfa.go, and Auth.Totp, internal/auth/totp.go: the second factor.
--    The handlers pass the step that ValidateTOTP accepts on to AdvanceStep.
--  * Store.ApiTokens, internal/store/api_tokens.go: personal API tokens.
--  * Store.PanelSettings, internal/store/panel_settings.go: settings behind a cache, and the policy that
--    forces two-factor sign-in.
--  * Api.AuthMiddleware, internal/api/auth_middleware.go: who may pass. It takes the stores as
--    interfaces; Api.AuthMiddleware.SignedOut fills the one of sessions with Store.AuthSessions.
--  * Api.SignIn and Api.MfaSettings, internal/api/mfa_handlers.go, internal/api/account.go and
--    loginHandler of internal/api/handlers.go: signing in by password and by a second factor, and
--    enrolling, disabling and renewing one. They take the throttle, the second factors and the sessions
--    as interfaces, whose counterparts among the stores Api.SignIn.Wired passes in.
--  * Store.ListeningPorts, internal/store/listening_ports.go: the listening ports of a server, and
--    their replacement, statement by statement, by what an edge reports. A Go map, whose order is not
--    fixed, is a list there.
--  * Api.Audit, internal/api/audit_classify.go: which requests leave a row in the audit trail, and what
--    the row says of them.
--  * Remotesvc.BoundPorts, internal/remotesvc/bound_ports.go: the parser of the listening ports that a
--    script prints on a remote host.
--  * Store.UserTokens, internal/store/user_tokens.go: one-time links.
--  * Store.TrafficScope, internal/store/traffic_scope.go: the conditions of analytics queries.
--  * Auth.Jwt, internal/auth/jwt.go: the claims of signed tokens, which the middleware takes as a parser.
--  * Auth.OauthState, internal/auth/oauth_state.go: the signed state of an OAuth round trip.
--  * Api.ViewerScope, internal/api/viewer_scope.go: what a user sees who is no administrator.
--  * Api.ClientIp, internal/api/client_ip.go: the address of a caller.
--  * Api.TokenScopes, internal/api/token_scopes.go: what the scopes of an API token permit.
--  * Api.Params, internal/api/params.go: ids in request paths.
--
-- Loops are structural recursion on the list that the source walks, or on the number of positions that
-- are left, so no fuel is needed. One statement or transaction of a server is one step; a history is a
-- sequence of steps, and the relation Later of Store.UserMfa.Replay allows those of other requests in
-- between.
--
-- Not modelled: the analytics, edge deployment, SSH and report subsystems, the other tables and their
-- handlers (users, servers, sites, firewall rules), sign-in through identity providers, HTTP encoding,
-- the schema statements, and logging. Of the audit trail, the tense of a summary and the recorded
-- changes are left out; of a script that runs on a remote host, the script.
pub mod Prelude
pub mod Text
pub mod Action
pub mod Store
pub mod Auth
pub mod Api
pub mod Remotesvc
pub mod Examples
